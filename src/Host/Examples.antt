-- ===== src/Host/Examples.antt =====
-- A session in which the user changes the host's model, and the theorems at it.
use adaptive_model_router.Common.{
  All, List, String, [], bool_eq, false, length, nat_eq, none, refl, some, string_eq, text_eq, true,
  ◌++◌, ◌==◌, ◌∷◌, ◌≡◌,
}
use adaptive_model_router.Host.{Change, Decision, HostDb, HostRow, Status, TaskMode, is_pending}
use adaptive_model_router.Host.Decisions.{IsOpen, observe_on, resolve_once}
use adaptive_model_router.Host.Intent.{IsConsistent, asked_id, store}
use adaptive_model_router.Host.Observe.{observe_host_model}
use adaptive_model_router.Host.Reach.{Reaches, Reaches-IsConsistent}
use adaptive_model_router.Host.Resolve.{Resolution, resolve_host_model_intent}
use adaptive_model_router.Vocabulary.{
  category_eq, effort_eq, failure_eq, gate_eq, level_eq, signal_eq,
}

abbrev row_b : HostRow
row_b = record {
  current_model = some "b";
  model_visible = true;
  task_mode = TaskMode.automatic;
  pending_change_id = some "id1";
}

abbrev a_to_b : Change
a_to_b = record { change_id = "id1"; from_model = "a"; to_model = "b"; status = Status.pending }

abbrev unseen : HostDb
unseen = record { row = none; changes = [] }

unseen-IsConsistent : IsConsistent unseen
unseen-IsConsistent = record { only_pending = tt; asked = λ id h. absurd (none_ne_some id h) }
  where
    none_ne_some : (id : String) → none ≡ some id → ⊥
    none_ne_some id g = cc

-- Model `a`, then model `b`.
abbrev asked_state : HostDb
asked_state = store (some row_b) (a_to_b ∷ [])

to_b : Reaches unseen asked_state
unfolding observe_host_model
to_b =
    Reaches.observed (some "a") true "id0" tt
      (Reaches.observed (some "b") true "id1" tt Reaches.here)

Reaches-IsConsistent_example : IsConsistent asked_state
Reaches-IsConsistent_example = Reaches-IsConsistent unseen asked_state unseen-IsConsistent to_b

IsOpen-to : (model : String) → ("b" == model) ≡ false → IsOpen row_b (a_to_b ∷ []) "b" model a_to_b
IsOpen-to model h = record {
  consistent = Reaches-IsConsistent_state;
  pending_here = refl;
  found = refl;
  current_here = refl;
  named = refl;
  moved = h;
}
  where
    Reaches-IsConsistent_state : IsConsistent asked_state
    Reaches-IsConsistent_state = Reaches-IsConsistent unseen asked_state unseen-IsConsistent to_b

abbrev after_a : HostDb
after_a = (observe_host_model (some "a") true "id2" asked_state).0

abbrev after_c : HostDb
after_c = (observe_host_model (some "c") true "id2" asked_state).0

observe_on_example :
    (asked_id after_c ≡ some "id2")
    × ((older : List Change) × (after_c.changes
          ≡ older
            ++ record {
              change_id = "id2";
              from_model = "a";
              to_model = "c";
              status = Status.pending;
            }
              ∷ [])
        × All (λ c. is_pending c.status ≡ false) older
        × (length older ≡ 1))
observe_on_example = observe_on row_b (a_to_b ∷ []) "b" "c" a_to_b (IsOpen-to "c" refl) "id2" refl

abbrev kept : HostDb
kept = (resolve_host_model_intent "id1" Decision.keep_automatic asked_state).0

resolve_once_example :
    ((resolve_host_model_intent "id1" Decision.keep_automatic asked_state).1
      ≡ Resolution.resolved TaskMode.automatic "b")
    × (asked_id kept ≡ none)
    × (resolve_host_model_intent "id1" Decision.manual_root kept ≡ (kept, Resolution.conflicting))
resolve_once_example =
    resolve_once row_b (a_to_b ∷ []) "b" "c" a_to_b (IsOpen-to "c" refl) Decision.keep_automatic
      Decision.manual_root
