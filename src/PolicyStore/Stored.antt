-- ===== src/PolicyStore/Stored.antt =====
-- The invariant of the stored policies, kept by every operation of scripts/lib/model-policy-store.mjs.
use adaptive_model_router.Common.{
  All, All-map, Bool, Bool-cases, List, Option, String, all, bool_eq, false, inl, inr, nat_eq, none,
  some, string_eq, subst, sym, text_eq, true, ◌==◌, ◌≡◌,
}
use adaptive_model_router.Policy.{Definition, Policy}
use adaptive_model_router.PolicyStore.{
  Meta, Result, Setting, compiled, is_digest, last?, read_selected,
}
use adaptive_model_router.PolicyStore.Change.{point, without_dead}
use adaptive_model_router.PolicyStore.Reading.{
  Extends, IsReadable, IsReadable-Extends, IsSound, Retains, compiled_definition, compiled_digest,
  read_revision_found, read_selected_inv,
}
use adaptive_model_router.Vocabulary.{
  category_eq, effort_eq, failure_eq, gate_eq, level_eq, signal_eq,
}

-- Two facts about the program outside: a digest is 64 hexadecimal digits, and the default policy is a
-- compiled one.
pub record IsPlausible (c : Setting) : Type 0 where
  pub hex : (d : Definition) → is_digest (c.digest_of d) ≡ true
  pub default_compiles : compiled c c.default_policy.definition ≡ Result.returned c.default_policy

abbrev pub Holds {ℓ κ} : {A : Type ℓ} → (A → Type κ) → Option A → Type κ
Holds P none = Unit
Holds P (some a) = P a

module _ (c : Setting) where
  -- A lineage ends in the pointer, and all of it can be read.
  abbrev pub IsLine : Meta → Option String → List String → Type 0
  IsLine m pointer values = (last? values ≡ pointer) × All (IsReadable c m) values

  pub record IsStored (m : Meta) : Type 0 where
    pub rows : All (IsSound c) m.revisions
    pub active : Holds (IsReadable c m) m.active
    pub active_v2 : Holds (IsReadable c m) m.active_v2
    pub lineage : Holds (IsLine m m.active) m.lineage
    pub lineage_v2 : Holds (IsLine m m.active_v2) m.lineage_v2
    pub paired : m.active ≡ none → m.lineage ≡ none

module _ (c : Setting) (plausible : IsPlausible c) where
  pub compiled-is_digest :
      (d : Definition) (p : Policy) → compiled c d ≡ Result.returned p → is_digest p.digest ≡ true
  compiled-is_digest d p h = rw (compiled_digest c d p h) (plausible.hex d)

  pub read_selected-compiled :
      (d : String) (m : Meta) (p : Policy)
      → read_selected c (some d) m ≡ Result.returned p
      → compiled c p.definition ≡ Result.returned p
  read_selected-compiled d m p h = elim (read_selected_inv c d m p h) [
    | inl e ↦ rw e plausible.default_compiles
    | inr e ↦
        let (r, _found, comp, _same) = read_revision_found c d m p e in
        subst (λ d. compiled c d ≡ Result.returned p)
          (sym (compiled_definition c r.definition p comp)) comp
  ]

  pub IsReadable-is_digest : (m : Meta) (d : String) → IsReadable c m d → is_digest d ≡ true
  IsReadable-is_digest m d (p, h, same) =
      rw (← same) (compiled-is_digest p.definition p (read_selected-compiled d m p h))

  pub is_digest_filled : (d : String) → is_digest d ≡ true → (d == "") ≡ false
  unfolding is_digest
  is_digest_filled d h = elim (Bool-cases (d == "")) [
    | inl e ↦ cc (rw ((string_eq.equal_iff _ _).0 e) at h)
    | inr e ↦ e
  ]

  module _ (m n : Meta) (ext : Extends c m n) where
    All-IsReadable-Extends : (ds : List String) → All (IsReadable c m) ds → All (IsReadable c n) ds
    All-IsReadable-Extends ds all = All-map _ _ (λ d. IsReadable-Extends c d m n ext) ds all

    pub IsLine-Extends :
        (pointer : Option String) (values : Option (List String))
        → Holds (IsLine c m pointer) values
        → Holds (IsLine c n pointer) values
    IsLine-Extends pointer none h = tt
    IsLine-Extends pointer (some values) h = (h.0, All-IsReadable-Extends values h.1)

    pub pointer-Extends : (o : Option String) → Holds (IsReadable c m) o → Holds (IsReadable c n) o
    pointer-Extends none h = tt
    pointer-Extends (some d) h = IsReadable-Extends c d m n ext h

  pub retain-IsStored : (p : Policy) (m n : Meta) → Retains c p m n → IsStored c m → IsStored c n
  retain-IsStored p m n kept stored = rw kept.only (record {
    rows = kept.sound stored.rows;
    active = pointer-Extends m _ kept.extends m.active stored.active;
    active_v2 = pointer-Extends m _ kept.extends m.active_v2 stored.active_v2;
    lineage = IsLine-Extends m _ kept.extends m.active m.lineage stored.lineage;
    lineage_v2 = IsLine-Extends m _ kept.extends m.active_v2 m.lineage_v2 stored.lineage_v2;
    paired = stored.paired;
  })

  -- A new pointer with the lineage that ends in it.
  pub point-IsStored :
      (v2 : Bool) (d : String) (values : List String) (m : Meta)
      → IsReadable c m d
      → IsLine c m (some d) values
      → IsStored c m
      → IsStored c (point c v2 d values m)
  point-IsStored true d values m readable line stored = record {
    rows = stored.rows;
    active = pointer-Extends m _ (λ d r f. f) m.active stored.active;
    active_v2 = IsReadable-Extends c d m _ (λ d r f. f) readable;
    lineage = IsLine-Extends m _ (λ d r f. f) m.active m.lineage stored.lineage;
    lineage_v2 = IsLine-Extends m _ (λ d r f. f) (some d) (some values) line;
    paired = stored.paired;
  }
  point-IsStored false d values m readable line stored = record {
    rows = stored.rows;
    active = IsReadable-Extends c d m _ (λ d r f. f) readable;
    active_v2 = pointer-Extends m _ (λ d r f. f) m.active_v2 stored.active_v2;
    lineage = IsLine-Extends m _ (λ d r f. f) (some d) (some values) line;
    lineage_v2 = IsLine-Extends m _ (λ d r f. f) m.active_v2 m.lineage_v2 stored.lineage_v2;
    paired = λ e. cc;
  }

  pub without_dead-IsStored : (m : Meta) → IsStored c m → IsStored c (without_dead m)
  without_dead-IsStored m stored = record {
    rows = stored.rows;
    active = pointer-Extends m _ (λ d r f. f) m.active stored.active;
    active_v2 = pointer-Extends m _ (λ d r f. f) m.active_v2 stored.active_v2;
    lineage = IsLine-Extends m _ (λ d r f. f) m.active m.lineage stored.lineage;
    lineage_v2 = IsLine-Extends m _ (λ d r f. f) m.active_v2 m.lineage_v2 stored.lineage_v2;
    paired = stored.paired;
  }
