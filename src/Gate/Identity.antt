-- ===== src/Gate/Identity.antt =====
-- Keys of the table of attempts: a route has one row, so that `WHERE route_id = ?` is that row.

use mathlib.Core.Bool.{false≢true}
use mathlib.Core.Option.{some-injective}
use adaptive_model_router.Common.{
  All, All-filter, All-find?, Bool, Bool-cases, List, String, [], bool_eq, eq_iff, false, filter,
  find?, inl, inr, nat_eq, refl, some, string_eq, subst, sym, text_eq, true, ◌==◌, ◌∙◌, ◌∷◌, ◌≡◌,
}
use adaptive_model_router.Gate.{Attempt, has_route, update}
use adaptive_model_router.Gate.Stop.{only}
use adaptive_model_router.Gate.Store.{All-update}
use adaptive_model_router.Vocabulary.{effort_eq, failure_eq, gate_eq, level_eq, signal_eq}

-- `route_id` is the primary key.
abbrev pub Distinct : List Attempt → Type 0
Distinct [] = Unit
Distinct (r ∷ rs) = All (λ y. (y.route_id == r.route_id) ≡ false) rs × Distinct rs

pub str_beq_refl : (s : String) → (s == s) ≡ true
str_beq_refl s = (eq_iff s s).1 refl

pub str_beq_sym : (s t : String) → (s == t) ≡ false → (t == s) ≡ false
str_beq_sym s t h = elim (Bool-cases (t == s)) [
  | inl e ↦ absurd (false≢true (sym h ∙ (eq_iff s t).1 (sym ((eq_iff t s).0 e))))
  | inr e ↦ e
]

-- `y` has the route of `r` only if it is `r`.
abbrev pub OnlyRow : Attempt → Attempt → Type 0
OnlyRow r y = has_route r.route_id y ≡ true → y ≡ r

others_apart :
    (x : Attempt) (ys : List Attempt)
    → All (λ y. (y.route_id == x.route_id) ≡ false) ys
    → All (OnlyRow x) ys
others_apart x [] d = tt
others_apart x (y ∷ ys) d = ((λ h. absurd (false≢true (sym d.0 ∙ h))), others_apart x ys d.1)

-- The row that a select found is the only one of its route.
pub unique_row :
    (q : Attempt → Bool) (rows : List Attempt) {r : Attempt}
    → Distinct rows
    → find? q rows ≡ some r
    → All (OnlyRow r) rows
unique_row q [] d e = tt
unique_row q (x ∷ xs) {r} d e = elim (Bool-cases (q x)) [
  | inl hit ↦
      subst (λ z. All (OnlyRow z) (x ∷ xs)) (some-injective x r (rw hit at e))
        ((λ _. refl), others_apart x xs d.0)
  | inr miss ↦ later (rw miss at e) (unique_row q xs d.1 (rw miss at e))
]
  where
    later : find? q xs ≡ some r → All (OnlyRow r) xs → All (OnlyRow r) (x ∷ xs)
    later g rest =
        let apart = All-find? (λ y. (y.route_id == x.route_id) ≡ false) q xs d.0 g in
        ((λ h. absurd (false≢true (sym (str_beq_sym r.route_id x.route_id apart) ∙ h))), rest)

-- An update of the route of a row that was read changes that row only, so that what was read of it may
-- be used.
pub update_route {ℓ} :
    (P : Attempt → Type ℓ) (p : Attempt → Bool) (f : Attempt → Attempt) (r : Attempt)
    → ((y : Attempt) → p y ≡ true → has_route r.route_id y ≡ true)
    → (P r → P (f r))
    → (rows : List Attempt) → All (OnlyRow r) rows
    → All P rows
    → All P (update p f rows)
unfolding update
update_route P p f r route keep [] only a = tt
update_route P p f r route keep (x ∷ xs) only a = elim (Bool-cases (p x)) [
  | inl e ↦ rw e (
    subst (λ z. P z → P (f z)) (sym (only.0 (route x e))) keep a.0,
    update_route P p f r route keep xs only.1 a.1,
  )
  | inr e ↦ rw e (a.0, update_route P p f r route keep xs only.1 a.1)
]

-- An update that keeps the routes keeps the key.
map_apart :
    (p : Attempt → Bool) (f : Attempt → Attempt) (route : String)
    → ((y : Attempt) → (f y).route_id ≡ y.route_id)
    → (rows : List Attempt) → All (λ y. (y.route_id == route) ≡ false) rows
    → All (λ y. (y.route_id == route) ≡ false) (update p f rows)
map_apart p f route same rows =
    All-update (λ y. (y.route_id == route) ≡ false) p f (λ y _ h. rw (same y) h) rows

pub update-Distinct :
    (p : Attempt → Bool) (f : Attempt → Attempt)
    → ((y : Attempt) → (f y).route_id ≡ y.route_id)
    → (rows : List Attempt) → Distinct rows
    → Distinct (update p f rows)
unfolding update
update-Distinct p f same [] d = tt
update-Distinct p f same (x ∷ xs) d = elim (Bool-cases (p x)) [
  | inl e ↦ rw (e, same x) (map_apart p f x.route_id same xs d.0, update-Distinct p f same xs d.1)
  | inr e ↦ rw e (map_apart p f x.route_id same xs d.0, update-Distinct p f same xs d.1)
]

pub filter-Distinct :
    (p : Attempt → Bool) (rows : List Attempt) → Distinct rows → Distinct (filter p rows)
filter-Distinct p [] d = tt
filter-Distinct p (x ∷ xs) d = elim (Bool-cases (p x)) [
  | inl e ↦
      rw e (All-filter (λ y. (y.route_id == x.route_id) ≡ false) p xs d.0, filter-Distinct p xs d.1)
  | inr e ↦ rw e (filter-Distinct p xs d.1)
]
