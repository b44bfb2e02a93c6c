-- ===== src/PolicyStore.antt =====
-- The stored model policies, scripts/lib/model-policy-store.mjs: the rows of `meta` that it keeps, and
-- reading, retaining and initialising (PolicyStore.Change activates and rolls back). A thrown error is a fault, and a fault
-- aborts the transaction. What scripts/lib/model-policy-isolation.mjs counts as blocking is an argument;
-- a lease comes with whether its process is gone. The time of a revision is left out.
pub mod Change
pub mod Lineage
pub mod Reading
pub mod Stored
pub mod Stack
pub mod Refines
pub mod History
pub mod Kept
pub mod Reach
mod Examples
use Prim.Native.Char.{code}
use adaptive_model_router.Common.{
  Bool, List, Option, String, [], all, bool_eq, false, find?, if◌then◌else◌, includes, inl, inr,
  is_some, leb, length, nat_beq, nat_eq, none, not, opt_beq, or_else, refl, some, string_eq, suc,
  text_beq_eq, text_eq, true, zero, ℕ, ◌&&◌, ◌++◌, ◌+◌, ◌==◌, ◌||◌, ◌∷◌, ◌≡◌, ◌⊎◌,
}
use adaptive_model_router.Policy.{Definition, Policy}
use adaptive_model_router.Policy.Compile.{Invalid, compile_model_policy}
use adaptive_model_router.Vocabulary.{
  category_eq, effort_eq, failure_eq, gate_eq, level_eq, signal_eq,
}

pub data Fault : Type 0 where
  invalid_definition : Invalid → Fault
  revision_missing revision_digest_mismatch lineage_mismatch ancestry_cycle : Fault
  revision_collision legacy_schema out_of_fuel : Fault

pub data Result {ℓ} (A : Type ℓ) : Type ℓ where
  thrown : Fault → Result A
  returned : A → Result A

-- `if (!test) throw`.
abbrev pub require {ℓ} : {A : Type ℓ} → Bool → Fault → Result A → Result A
require false e rest = thrown e
require true e rest = rest

infixl 5 ◌>>=◌
abbrev pub ◌>>=◌ {ℓ κ} : {A : Type ℓ} {B : Type κ} → Result A → (A → Result B) → Result B
thrown e >>= next = thrown e
returned a >>= next = next a

-- A successful chain, taken apart.
pub bind_inv {ℓ κ} :
    {A : Type ℓ} {B : Type κ} (m : Result A) (f : A → Result B) {b : B}
    → (m >>= f) ≡ returned b
    → (a : A) × (m ≡ returned a) × (f a ≡ returned b)
bind_inv (thrown e) f h = cc
bind_inv (returned a) f h = (a, refl, h)

pub Result-cases {ℓ} :
    {A : Type ℓ} (m : Result A) → ((a : A) × (m ≡ returned a)) ⊎ ((e : Fault) × (m ≡ thrown e))
Result-cases (returned a) = inl (a, refl)
Result-cases (thrown e) = inr (e, refl)

pub require_inv {ℓ} :
    {B : Type ℓ} (t : Bool) (e : Fault) (m : Result B) {b : B}
    → require t e m ≡ returned b
    → (t ≡ true) × (m ≡ returned b)
require_inv true e m h = (refl, h)
require_inv false e m h = cc

pub returned-injective {ℓ} : {A : Type ℓ} (a b : A) → returned a ≡ returned b → a ≡ b
returned-injective a b h = cc

-- A row `model_policy:revision:<digest>`.
pub record Revision : Type 0 where
  pub digest : String
  pub definition : Definition
  pub parent_digest : Option String

-- A row `model_policy:inference:<id>`.
pub record Lease : Type 0 where
  pub id : String
  pub dead : Bool

pub record Meta : Type 0 where
  pub active : Option String
  pub active_v2 : Option String
  pub revisions : List Revision
  pub lineage : Option (List String)
  pub lineage_v2 : Option (List String)
  pub leases : List Lease

-- `activeKey`: whether it is the key of version 2.
abbrev pub is_v2 : Meta → Bool
is_v2 m = is_some m.active_v2

abbrev pub active_pointer : Meta → Option String
active_pointer m = if is_v2 m then m.active_v2 else m.active

abbrev pub active_lineage : Meta → Option (List String)
active_lineage m = if is_v2 m then m.lineage_v2 else m.lineage

abbrev pub find_revision : String → List Revision → Option Revision
find_revision d rs = find? (λ r. r.digest == d) rs

abbrev codes : String → List ℕ
codes String.[] = []
codes (String.◌∷◌ c s) = code c ∷ codes s

abbrev is_hex : ℕ → Bool
is_hex c = (leb b'0' c && leb c b'9') || (leb b'a' c && leb c b'f')

-- /^[a-f0-9]{64}$/.
unfoldable pub is_digest : String → Bool
is_digest s = nat_beq (length (codes s)) 64 && all is_hex (codes s)

abbrev pub last? {ℓ} : {A : Type ℓ} → List A → Option A
last? [] = none
last? (x ∷ []) = some x
last? (x ∷ y ∷ rest) = last? (y ∷ rest)

-- `lineage.slice(0, -1)`.
abbrev pub drop_last {ℓ} : {A : Type ℓ} → List A → List A
drop_last [] = []
drop_last (x ∷ []) = []
drop_last (x ∷ y ∷ rest) = x ∷ drop_last (y ∷ rest)

-- The test of a stored lineage against the digest of the current policy.
abbrev pub is_lineage_of : String → List String → Bool
is_lineage_of digest values = opt_beq (last? values) (some digest) && all is_digest values

-- What the store is built on: the test of a model slug, the digest and the canonical JSON of a
-- definition, and the compiled DEFAULT_MODEL_POLICY.
pub record Setting : Type 0 where
  pub is_exact : String → Bool
  pub digest_of : Definition → String
  pub canonical : Definition → String
  pub default_policy : Policy

module _ (c : Setting) where
  unfoldable pub compiled : Definition → Result Policy
  compiled d = elim (compile_model_policy c.is_exact c.digest_of d) [
    | inl p ↦ returned p
    | inr e ↦ thrown (Fault.invalid_definition e)
  ]

  unfoldable pub read_revision : String → Meta → Result Policy
  read_revision digest m = elim (find_revision digest m.revisions) [
    | none ↦ thrown Fault.revision_missing
    | some r ↦ do
      policy ← compiled r.definition
      require (policy.digest == digest) Fault.revision_digest_mismatch (returned policy)
  ]

  unfoldable pub read_selected : Option String → Meta → Result Policy
  unfolding read_revision
  read_selected selected m = elim selected [
    | none ↦ returned c.default_policy
    | some d ↦
        if d == "" || d == c.default_policy.digest
        then returned c.default_policy
        else read_revision d m
  ]

  unfoldable pub read_model_policy : Meta → Result Policy
  read_model_policy m = read_selected (active_pointer m) m

  abbrev pub parent_of : String → Meta → Option String
  parent_of digest m = elim (find_revision digest m.revisions) [
    | none ↦ none
    | some r ↦ r.parent_digest
  ]

  -- The loop of `activationLineage`: the values from the oldest one known to the current one.
  unfoldable pub walk : ℕ → String → List String → Meta → Result (List String)
  walk zero oldest newer m = thrown Fault.out_of_fuel
  walk (suc fuel) oldest newer m = elim (parent_of oldest m) [
    | none ↦ returned (oldest ∷ newer)
    | some parent ↦ elim (parent == "") [
      | true ↦ returned (oldest ∷ newer)
      | false ↦
          require (not (includes (oldest ∷ newer) parent)) Fault.ancestry_cycle
            (do _policy ← read_selected (some parent) m; walk fuel parent (oldest ∷ newer) m)
    ]
  ]

  unfoldable pub activation_lineage : Policy → Meta → Result (List String)
  unfolding walk
  activation_lineage current m = elim (active_lineage m) [
    | some values ↦
        require (is_lineage_of current.digest values) Fault.lineage_mismatch (returned values)
    | none ↦ walk (length m.revisions + 2) current.digest [] m
  ]

  unfoldable pub retain_model_policy : Policy → Option String → Meta → Result Meta
  retain_model_policy policy parent m = elim (find_revision policy.digest m.revisions) [
    | some r ↦
        require (c.canonical r.definition == c.canonical policy.definition) Fault.revision_collision
          (returned m)
    | none ↦ returned (record m {
      revisions =
          m.revisions
          ++ record {
            digest = policy.digest;
            definition = policy.definition;
            parent_digest = parent;
          }
            ∷ [];
    })
  ]

  abbrev pub legacy_policy : Meta → Result Policy
  legacy_policy m = elim m.active [
    | none ↦ returned c.default_policy
    | some d ↦ read_selected (some d) m
  ]

  unfoldable pub initialize_model_policy : Meta → Result Meta
  initialize_model_policy m = do
    legacy ← legacy_policy m
    require (nat_beq legacy.definition.schema_version 1) Fault.legacy_schema (do
      m1 ← retain_model_policy legacy none m
      let m2 = record m1 { active = or_else m1.active (some legacy.digest) }
      policy ← read_model_policy m2
      retain_model_policy policy none m2)
