-- ===== src/Gate/Carrier.antt =====
-- The carrier of a delegation: `createDelegationTicket` and `parseCarrierTaskName`
-- of scripts/lib/delegation-gate.mjs. Texts are lists of code points.
use mathlib.Core.Path.{ap₂}
use mathlib.Core.Option.{some-injective}
use adaptive_model_router.Common.{
  All, Bool, Bool-cases, List, Option, Option-cases, Text, [], all, ap, arith, bool_eq,
  if◌then◌else◌, inl, inr, leb, length, ltb, nat_beq, nat_beq_iff, nat_eq, none, refl, some,
  string_eq, sym, text_eq, true, ℕ, ◌%◌, ◌&&◌, ◌*◌, ◌++◌, ◌+◌, ◌-◌, ◌/◌, ◌<◌, ◌==◌, ◌||◌, ◌∙◌, ◌∷◌,
  ◌≡◌,
}
use adaptive_model_router.Vocabulary.{effort_eq, failure_eq, gate_eq, level_eq, signal_eq}

-- TASK_NAME_PREFIX, "router_".
abbrev pub task_name_prefix : Text
task_name_prefix = b'r' ∷ b'o' ∷ b'u' ∷ b't' ∷ b'e' ∷ b'r' ∷ b'_' ∷ []

abbrev is_hex_digit : ℕ → Bool
is_hex_digit c = (leb b'0' c && leb c b'9') || (leb b'a' c && leb c b'f')

-- TICKET_PATTERN, /^[a-f0-9]{32}$/u.
unfoldable pub is_ticket : Text → Bool
is_ticket t = length t == 32 && all is_hex_digit t

-- `startsWith` and the `slice` behind it.
abbrev pub strip_prefix : Text → Text → Option Text
strip_prefix [] t = some t
strip_prefix (p ∷ ps) [] = none
strip_prefix (p ∷ ps) (c ∷ cs) = if p == c then strip_prefix ps cs else none

-- `none` where the source answers `{ marked: false }`: also for a value that is no text.
unfoldable pub parse_carrier_task_name : Option Text → Option Text
unfolding is_ticket
parse_carrier_task_name none = none
parse_carrier_task_name (some value) = elim (strip_prefix task_name_prefix value) [
  | none ↦ none
  | some ticket ↦ if is_ticket ticket then some ticket else none
]

-- `toString("hex")` of a byte, and of bytes.
abbrev hex_digit : ℕ → ℕ
hex_digit n = if ltb n 10 then b'0' + n else b'a' + (n - 10)

unfoldable pub to_hex : List ℕ → Text
to_hex [] = []
to_hex (b ∷ bs) = hex_digit (b / 16) ∷ hex_digit (b % 16) ∷ to_hex bs

-- The ticket and the task name that `createDelegationTicket` makes of sixteen random bytes.
unfoldable pub create_task_name : List ℕ → Text
unfolding to_hex
create_task_name bytes = task_name_prefix ++ to_hex bytes

hex_digit_hex : (n : ℕ) → n < 16 → is_hex_digit (hex_digit n) ≡ true
hex_digit_hex n h = ground arith

to_hex-hex : (bytes : List ℕ) → All (λ b. b < 256) bytes → all is_hex_digit (to_hex bytes) ≡ true
unfolding to_hex
to_hex-hex [] h = refl
to_hex-hex (b ∷ bs) h =
    rw (hex_digit_hex (b / 16) (omega arith), hex_digit_hex (b % 16) (omega arith))
      (to_hex-hex bs h.1)

length-to_hex : (bytes : List ℕ) → length (to_hex bytes) ≡ 2 * length bytes
unfolding to_hex
length-to_hex [] = refl
length-to_hex (b ∷ bs) = omega (arith, length-to_hex bs)

strip_prefix-append : (p t : Text) → strip_prefix p (p ++ t) ≡ some t
strip_prefix-append [] t = refl
strip_prefix-append (c ∷ cs) t = rw (nat_beq_refl c) (strip_prefix-append cs t)
  where
    nat_beq_refl : (n : ℕ) → nat_beq n n ≡ true
    nat_beq_refl n = ground arith

create-strip :
    (bytes : List ℕ) → strip_prefix task_name_prefix (create_task_name bytes) ≡ some (to_hex bytes)
unfolding create_task_name
create-strip bytes = strip_prefix-append task_name_prefix (to_hex bytes)

is_ticket-to_hex :
    (bytes : List ℕ)
    → All (λ b. b < 256) bytes
    → length bytes ≡ 16
    → is_ticket (to_hex bytes) ≡ true
unfolding is_ticket
is_ticket-to_hex bytes h n =
    rw ((nat_eq.equal_iff (length (to_hex bytes)) 32).1 (omega (arith, length-to_hex bytes)))
      (to_hex-hex bytes h)

-- The task name of a fresh ticket of sixteen bytes is recognised, and gives the ticket back.
pub parse_carrier-create :
    (bytes : List ℕ)
    → All (λ b. b < 256) bytes
    → length bytes ≡ 16
    → parse_carrier_task_name (some (create_task_name bytes)) ≡ some (to_hex bytes)
unfolding parse_carrier_task_name
parse_carrier-create bytes h n =
    rw (create-strip bytes, parse_carrier_task_name) (rw (is_ticket-to_hex bytes h n))

strip_prefix-eq : (p value t : Text) → strip_prefix p value ≡ some t → value ≡ p ++ t
strip_prefix-eq [] value t h = some-injective value t h
strip_prefix-eq (p ∷ ps) [] t h = cc
strip_prefix-eq (p ∷ ps) (c ∷ cs) t h = elim (Bool-cases (nat_beq p c)) [
  | inl e ↦ ap₂ ◌∷◌ (sym ((nat_beq_iff p c).0 e)) (strip_prefix-eq ps cs t (rw e at h))
  | inr e ↦ absurd (none_ne_some (rw e at h))
]
  where
    none_ne_some : none ≡ some t → ⊥
    none_ne_some g = cc

-- A recognised task name is the prefix and a ticket of 32 lower-case hexadecimal digits: no other
-- name is taken for a carrier.
pub parse_carrier-eq :
    (value ticket : Text)
    → parse_carrier_task_name (some value) ≡ some ticket
    → (value ≡ task_name_prefix ++ ticket) × (is_ticket ticket ≡ true)
unfolding parse_carrier_task_name
parse_carrier-eq value ticket h = elim (Option-cases (strip_prefix task_name_prefix value)) [
  | inl e ↦ absurd (none_ne_some (rw (e, parse_carrier_task_name) at h))
  | inr (t, e) ↦ recognised t e (rw (e, parse_carrier_task_name) at h)
]
  where
    none_ne_some : none ≡ some ticket → ⊥
    none_ne_some g = cc

    recognised :
        (t : Text)
        → strip_prefix task_name_prefix value ≡ some t
        → (if is_ticket t then some t else none) ≡ some ticket
        → (value ≡ task_name_prefix ++ ticket) × (is_ticket ticket ≡ true)
    recognised t e g = elim (Bool-cases (is_ticket t)) [
      | inl y ↦ same t e y (some-injective t ticket (rw y at g))
      | inr n ↦ absurd (none_ne_some (rw n at g))
    ]
      where
        same :
            (t : Text)
            → strip_prefix task_name_prefix value ≡ some t
            → is_ticket t ≡ true
            → t ≡ ticket
            → (value ≡ task_name_prefix ++ ticket) × (is_ticket ticket ≡ true)
        same t e y q = (strip_prefix-eq task_name_prefix value ticket (e ∙ ap some q), rw q at y)
