-- ===== src/Gate/Store.antt =====
-- The laws of `UPDATE ... WHERE` on a table.
use mathlib.Core.Option.{some-injective}
use adaptive_model_router.Common.{
  All, Bool, Bool-cases, List, [], ap, false, find?, if◌then◌else◌, inl, inr, length, refl, some,
  suc, true, ◌∷◌, ◌≡◌,
}
use adaptive_model_router.Gate.{update}

module _ {ℓ} {A : Type ℓ} where
  -- A property that the update keeps where it applies holds of the whole table again.
  pub All-update {κ} :
      (P : A → Type κ) (p : A → Bool) (f : A → A)
      → ((x : A) → p x ≡ true → P x → P (f x))
      → (xs : List A) → All P xs
      → All P (update p f xs)
  unfolding update
  All-update P p f keep [] h = tt
  All-update P p f keep (x ∷ xs) h = elim (Bool-cases (p x)) [
    | inl e ↦ rw e (keep x e h.0, All-update P p f keep xs h.1)
    | inr e ↦ rw e (h.0, All-update P p f keep xs h.1)
  ]

  -- An update that leads from one property to another.
  pub All-update_to {κ μ} :
      (P : A → Type κ) (Q : A → Type μ) (p : A → Bool) (f : A → A)
      → ((x : A) → p x ≡ true → P x → Q (f x))
      → ((x : A) → p x ≡ false → P x → Q x)
      → (xs : List A) → All P xs
      → All Q (update p f xs)
  unfolding update
  All-update_to P Q p f hit miss [] h = tt
  All-update_to P Q p f hit miss (x ∷ xs) h = elim (Bool-cases (p x)) [
    | inl e ↦ rw e (hit x e h.0, All-update_to P Q p f hit miss xs h.1)
    | inr e ↦ rw e (miss x e h.0, All-update_to P Q p f hit miss xs h.1)
  ]

  -- A select whose test the update does not touch finds the updated row.
  pub find?-update :
      (q p : A → Bool) (f : A → A)
      → ((x : A) → q (f x) ≡ q x)
      → (xs : List A) (x : A) → find? q xs ≡ some x
      → find? q (update p f xs) ≡ some (if p x then f x else x)
  unfolding update
  find?-update q p f same [] x h = cc
  find?-update q p f same (y ∷ ys) x h = elim (Bool-cases (q y)) [
    | inl e ↦ found e (rw e at h)
    | inr e ↦ missed e (find?-update q p f same ys x (rw e at h))
  ]
    where
      kept : q (if p y then f y else y) ≡ q y
      kept = elim (Bool-cases (p y)) [ inl e ↦ rw e (same y) | inr e ↦ rw e ]

      found :
          q y ≡ true
          → some y ≡ some x
          → (if q (if p y then f y else y)
              then some (if p y then f y else y)
              else find? q (update p f ys))
            ≡ some (if p x then f x else x)
      found e g = rw (kept, e) (ap (λ z. some (if p z then f z else z)) (some-injective y x g))

      missed :
          q y ≡ false
          → find? q (update p f ys) ≡ some (if p x then f x else x)
          → (if q (if p y then f y else y)
              then some (if p y then f y else y)
              else find? q (update p f ys))
            ≡ some (if p x then f x else x)
      missed e g = rw (kept, e) g

  pub length-update : (p : A → Bool) (f : A → A) (xs : List A) → length (update p f xs) ≡ length xs
  unfolding update
  length-update p f [] = refl
  length-update p f (x ∷ xs) = ap suc (length-update p f xs)
