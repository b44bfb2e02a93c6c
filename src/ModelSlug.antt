-- ===== src/ModelSlug.antt =====
-- `normalizeModelSlug` of scripts/lib/model-slug.mjs. Its regular expressions are predicates on lists of
-- code points; `trim` is that of JavaScript.
use Prim.Native.Char.{code}
use adaptive_model_router.Common.{
  &&-true, Bool, Bool-cases, Option, String, Text, [], all, any, ap, arith, bool_eq, false,
  if◌then◌else◌, includes, inl, inr, is_some, leb, length, map, nat_eq, none, not, refl, some,
  string_eq, sym, text_eq, true, ℕ, ◌&&◌, ◌++◌, ◌+◌, ◌==◌, ◌||◌, ◌∙◌, ◌∷◌, ◌≡◌,
}
use adaptive_model_router.Gate.Carrier.{strip_prefix}
use adaptive_model_router.Policy.Resolve.{is_empty}
use adaptive_model_router.Vocabulary.{
  category_eq, effort_eq, failure_eq, gate_eq, level_eq, signal_eq,
}

abbrev is_upper : ℕ → Bool
is_upper c = leb b'A' c && leb c b'Z'

abbrev is_lower : ℕ → Bool
is_lower c = leb b'a' c && leb c b'z'

abbrev is_digit : ℕ → Bool
is_digit c = leb b'0' c && leb c b'9'

abbrev is_letter : ℕ → Bool
is_letter c = is_upper c || is_lower c

abbrev is_alphanumeric : ℕ → Bool
is_alphanumeric c = is_letter c || is_digit c

-- Characters that `trim` removes: white space and line terminators.
abbrev pub is_space : ℕ → Bool
is_space c =
    (leb 9 c && leb c 13)
    || includes (32 ∷ 160 ∷ 5760 ∷ 8232 ∷ 8233 ∷ 8239 ∷ 8287 ∷ 12288 ∷ 65279 ∷ []) c
    || (leb 8192 c && leb c 8202)

abbrev pub trim_start : Text → Text
trim_start [] = []
trim_start (c ∷ cs) = if is_space c then trim_start cs else c ∷ cs

abbrev pub trim_end : Text → Text
trim_end [] = []
trim_end (c ∷ cs) = let rest = trim_end cs in if is_space c && is_empty rest then [] else c ∷ rest

abbrev pub trim : Text → Text
trim t = trim_start (trim_end t)

-- MODEL_SLUG_PATTERN.
abbrev pub is_slug_character : ℕ → Bool
is_slug_character c = is_alphanumeric c || includes (b'.' ∷ b'_' ∷ b':' ∷ b'/' ∷ b'-' ∷ []) c

unfoldable pub is_slug : Text → Bool
is_slug [] = false
is_slug (c ∷ cs) = is_alphanumeric c && (all is_slug_character cs && leb (length cs) 127)

-- A prefix, and at least so many characters of a class behind it.
abbrev is_key : Text → (ℕ → Bool) → ℕ → Text → Bool
is_key prefix class least t = elim (strip_prefix prefix t) [
  | none ↦ false
  | some rest ↦ all class rest && leb least (length rest)
]

abbrev is_word_character : ℕ → Bool
is_word_character c = is_alphanumeric c || c == b'_'

-- SECRET_PATTERN.
unfoldable pub is_secret : Text → Bool
is_secret t =
    is_key (b's' ∷ b'k' ∷ b'-' ∷ []) (λ c. is_word_character c || c == b'-') 10 t
    || any (λ kind. is_key (b'g' ∷ b'h' ∷ kind ∷ b'_' ∷ []) is_word_character 10 t)
        (b'o' ∷ b'p' ∷ b'u' ∷ b'r' ∷ b's' ∷ [])
    || is_key (b'A' ∷ b'K' ∷ b'I' ∷ b'A' ∷ []) (λ c. is_upper c || is_digit c) 12 t

-- WINDOWS_ABSOLUTE_PATTERN.
unfoldable pub is_windows_absolute : Text → Bool
is_windows_absolute (c ∷ d ∷ e ∷ rest) = is_letter c && (d == b':' && e == b'/')
is_windows_absolute _ = false

abbrev lower : ℕ → ℕ
lower c = if is_upper c then c + 32 else c

-- URI_PATH_PATTERN, which ignores case.
unfoldable pub is_uri_path : Text → Bool
is_uri_path t =
    any (λ scheme. is_some (strip_prefix (scheme ++ b':' ∷ b'/' ∷ []) (map lower t)))
      ((b'f' ∷ b'i' ∷ b'l' ∷ b'e' ∷ [])
        ∷ (b'h' ∷ b't' ∷ b't' ∷ b'p' ∷ [])
        ∷ (b'h' ∷ b't' ∷ b't' ∷ b'p' ∷ b's' ∷ [])
        ∷ (b's' ∷ b's' ∷ b'h' ∷ [])
        ∷ [])

-- Some segment between slashes is "." or ".."; `segment` is the one so far.
unfoldable pub has_dot_segment : Text → Text → Bool
has_dot_segment segment [] = segment == (b'.' ∷ []) || segment == (b'.' ∷ b'.' ∷ [])
has_dot_segment segment (c ∷ cs) =
    let rest = has_dot_segment [] cs in
    let longer = has_dot_segment (segment ++ c ∷ []) cs in
    if c == b'/' then segment == (b'.' ∷ []) || segment == (b'.' ∷ b'.' ∷ []) || rest else longer

-- The tests on the trimmed text.
unfoldable pub is_model_slug : Text → Bool
is_model_slug t =
    is_slug t
    && not (is_secret t)
    && not (is_windows_absolute t)
    && not (is_uri_path t)
    && not (has_dot_segment [] t)

unfoldable pub normalize_model_slug : Text → Option Text
unfolding is_model_slug
normalize_model_slug value = let t = trim value in if is_model_slug t then some t else none

-- The same on a string, which is normalised character by character.
abbrev pub codes : String → Text
codes String.[] = []
codes (String.◌∷◌ c s) = code c ∷ codes s

abbrev trim_string_start : String → String
trim_string_start String.[] = String.[]
trim_string_start (String.◌∷◌ c s) =
    if is_space (code c) then trim_string_start s else String.◌∷◌ c s

abbrev is_blank : String → Bool
is_blank String.[] = true
is_blank (String.◌∷◌ c s) = false

abbrev trim_string_end : String → String
trim_string_end String.[] = String.[]
trim_string_end (String.◌∷◌ c s) =
    let rest = trim_string_end s in
    if is_space (code c) && is_blank rest then String.[] else String.◌∷◌ c rest

unfoldable pub normalize_model : String → Option String
normalize_model value =
    let s = trim_string_start (trim_string_end value) in
    if is_model_slug (codes s) then some s else none

is_blank-codes : (s : String) → is_empty (codes s) ≡ is_blank s
is_blank-codes String.[] = refl
is_blank-codes (String.◌∷◌ c s) = refl

codes-trim_start : (s : String) → codes (trim_string_start s) ≡ trim_start (codes s)
codes-trim_start String.[] = refl
codes-trim_start (String.◌∷◌ c s) = elim (Bool-cases (is_space (code c))) [
  | inl e ↦ rw e (codes-trim_start s)
  | inr e ↦ rw e refl
]

codes-trim_end : (s : String) → codes (trim_string_end s) ≡ trim_end (codes s)
codes-trim_end String.[] = refl
codes-trim_end (String.◌∷◌ c s) =
    elim (Bool-cases (is_space (code c) && is_blank (trim_string_end s))) [
      | inl e ↦ rw (sym (codes-trim_end s), is_blank-codes (trim_string_end s), e) refl
      | inr e ↦ rw (sym (codes-trim_end s), is_blank-codes (trim_string_end s), e) refl
    ]

-- The two normalisers agree.
pub codes-normalize_model :
    (s : String)
    → elim (normalize_model s) [ none ↦ none | some t ↦ some (codes t) ]
      ≡ normalize_model_slug (codes s)
unfolding normalize_model normalize_model_slug
codes-normalize_model s =
    let same : codes (trim_string_start (trim_string_end s)) ≡ trim (codes s) =
      codes-trim_start (trim_string_end s) ∙ ap trim_start (codes-trim_end s) in
    elim (Bool-cases (is_model_slug (trim (codes s)))) [
      | inl e ↦ rw (same, e) (ap some same)
      | inr e ↦ rw (same, e) refl
    ]

slug_character-no_space : (c : ℕ) → is_slug_character c ≡ true → is_space c ≡ false
slug_character-no_space c h = ground arith

trim_end-fixed : (t : Text) → all is_slug_character t ≡ true → trim_end t ≡ t
trim_end-fixed [] h = refl
trim_end-fixed (c ∷ cs) h =
    let (first, rest) = &&-true (is_slug_character c) (all is_slug_character cs) h in
    rw (slug_character-no_space c first, trim_end-fixed cs rest) refl

trim_start-fixed : (t : Text) → all is_slug_character t ≡ true → trim_start t ≡ t
trim_start-fixed [] h = refl
trim_start-fixed (c ∷ cs) h =
    let (first, rest) = &&-true (is_slug_character c) (all is_slug_character cs) h in
    rw (slug_character-no_space c first) refl

is_slug-all : (t : Text) → is_slug t ≡ true → all is_slug_character t ≡ true
unfolding is_slug
is_slug-all [] h = refl
is_slug-all (c ∷ cs) h =
    let (first, rest) =
      &&-true (is_alphanumeric c) (all is_slug_character cs && leb (length cs) 127) h in
    rw (first, (&&-true (all is_slug_character cs) _ rest).0) refl

trim-fixed : (t : Text) → is_slug t ≡ true → trim t ≡ t
trim-fixed t h = let kept = is_slug-all t h in rw (trim_end-fixed t kept) (trim_start-fixed t kept)

is_model_slug-slug : (t : Text) → is_model_slug t ≡ true → is_slug t ≡ true
unfolding is_model_slug
is_model_slug-slug t h = first (is_slug t) _ _ _ _ h
  where
    first : (a b c d e : Bool) → (a && b && c && d && e) ≡ true → a ≡ true
    first a b c d e h = ground arith

-- Normalisation is idempotent: what it gives is a name that it leaves as it is.
pub normalize-normalize :
    (value model : Text)
    → normalize_model_slug value ≡ some model
    → normalize_model_slug model ≡ some model
unfolding normalize_model_slug
normalize-normalize value model h = elim (Bool-cases (is_model_slug (trim value))) [
  | inr e ↦ cc (rw (e, normalize_model_slug) at h)
  | inl e ↦
      let same : trim value ≡ model = cc (rw (e, normalize_model_slug) at h) in
      let good : is_model_slug model ≡ true = rw same at e in
      rw (trim-fixed model (is_model_slug-slug model good), good, normalize_model_slug) refl
]
