-- ===== src/Signed.antt =====
-- Integers over the native numbers, and `clamp` of scripts/lib/io.mjs.
use adaptive_model_router.Common.{
  Bool, arith, false, if◌then◌else◌, leb, true, ℕ, ◌&&◌, ◌+◌, ◌-◌, ◌≡◌,
}

pub data ℤ : Type 0 where
  pos : ℕ → ℤ
  negsuc : ℕ → ℤ

-- `a - b` of two natural numbers.
abbrev pub difference : ℕ → ℕ → ℤ
difference a b = if leb b a then ℤ.pos (a - b) else ℤ.negsuc (b - a - 1)

infixl 20 ◌+ℤ◌
abbrev pub ◌+ℤ◌ : ℤ → ℤ → ℤ
(ℤ.pos a) +ℤ (ℤ.pos b) = ℤ.pos (a + b)
(ℤ.pos a) +ℤ (ℤ.negsuc b) = difference a (b + 1)
(ℤ.negsuc a) +ℤ (ℤ.pos b) = difference b (a + 1)
(ℤ.negsuc a) +ℤ (ℤ.negsuc b) = ℤ.negsuc (a + b + 1)

abbrev pub leb_int : ℤ → ℤ → Bool
leb_int (ℤ.pos a) (ℤ.pos b) = leb a b
leb_int (ℤ.pos a) (ℤ.negsuc b) = false
leb_int (ℤ.negsuc a) (ℤ.pos b) = true
leb_int (ℤ.negsuc a) (ℤ.negsuc b) = leb b a

abbrev pub eq_int : ℤ → ℤ → Bool
eq_int a b = leb_int a b && leb_int b a

-- `Math.min(maximum, Math.max(minimum, value))`.
unfoldable pub clamp : ℤ → ℤ → ℤ → ℤ
clamp value minimum maximum =
    let raised = if leb_int value minimum then minimum else value in
    if leb_int maximum raised then maximum else raised

-- The range of an offset, -15 to 15.
abbrev pub within_offsets : ℤ → Bool
within_offsets v = leb_int (ℤ.negsuc 14) v && leb_int v (ℤ.pos 15)

pub clamp-within_offsets : (v : ℤ) → within_offsets (clamp v (ℤ.negsuc 14) (ℤ.pos 15)) ≡ true
unfolding clamp
clamp-within_offsets (ℤ.pos a) = ground arith
clamp-within_offsets (ℤ.negsuc a) = ground arith
