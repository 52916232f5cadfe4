-- ===== src/Http/Json.antt =====
-- `apps/api/src/http/json.ts`: the test of the Content-Type header.
use scos.Prelude.{
  ℕ, ◌+◌, Bool, true, false, not, ◌&&◌, ◌||◌, Option, some, none, [], ◌∷◌, leb, ltb, length, ◌==◌,
  if◌then◌else◌, Text, codes,
}
use scos.Ordering.Key.{is_white_space}

-- A letter without regard to case, as the flag `i` compares ASCII letters.
abbrev pub lower : ℕ → ℕ
lower c = if leb b'A' c && leb c b'Z' then c + 32 else c

abbrev pub is_letter : ℕ → Bool
is_letter c = leb b'a' (lower c) && leb (lower c) b'z'

-- [a-z-.]
abbrev pub is_subtype_char : ℕ → Bool
is_subtype_char c = is_letter c || c == b'-' || c == b'.'

-- [a-zA-Z0-9-]
abbrev pub is_name_char : ℕ → Bool
is_name_char c = is_letter c || (leb b'0' c && leb c b'9') || c == b'-'

-- What follows the word, if the text starts with it; the word is in lower case.
unfoldable pub after_word : Text → Text → Option Text
after_word [] t = some t
after_word (a ∷ word) [] = none
after_word (a ∷ word) (c ∷ t) = if lower c == a then after_word word t else none

-- The longest start of characters in the class, and the rest.
unfoldable pub span : (ℕ → Bool) → Text → Text × Text
span p [] = ([], [])
span p (c ∷ t) = let rest = span p t in if p c then (c ∷ rest.0, rest.1) else ([], c ∷ t)

-- `[^;]+` after a name, up to the next parameter
abbrev pub value_starts : Text → Bool
value_starts [] = false
value_starts (c ∷ t) = not (c == b';')

-- What follows `\s*[a-zA-Z0-9-]+=([^;]+)`, if the text starts with it.
unfoldable pub after_parameter : Text → Option Text
unfolding span
after_parameter t =
    let named = span is_name_char (span is_white_space t).1 in
    elim (after_word (b'=' ∷ []) named.1) [
      | none ↦ none
      | some value ↦
          if ltb 0 (length named.0) && value_starts value
          then some (span (λ c. not (c == b';')) value).1
          else none
    ]

-- `(;\s*[a-zA-Z0-9-]+=([^;]+))*$`, on fuel: every parameter takes a character.
unfoldable pub parameters_match : ℕ → Text → Bool
parameters_match fuel [] = true
parameters_match ℕ.zero (c ∷ t) = false
parameters_match (ℕ.suc fuel) (c ∷ t) =
    c == b';' && elim (after_parameter t) [ some rest ↦ parameters_match fuel rest | none ↦ false ]

abbrev pub rest_matches : Option Text → Bool
rest_matches none = false
rest_matches (some t) = parameters_match (length t) t

-- `([a-z-.]+\+)?json` and the parameters
unfoldable pub subtype_matches : Text → Bool
unfolding span after_word
subtype_matches t =
    let prefix = span is_subtype_char t in
    rest_matches (after_word (codes "json") t)
    || ltb 0 (length prefix.0) && elim (after_word (codes "+json") prefix.1) [
      | some rest ↦ rest_matches (some rest)
      | none ↦ false
    ]

-- `JSON_CONTENT_TYPE.test(contentType)`
unfoldable pub is_json_content_type : Text → Bool
is_json_content_type t = elim (after_word (codes "application/") t) [
  | some subtype ↦ subtype_matches subtype
  | none ↦ false
]

-- The guard of `requireJson`
abbrev pub is_json : Option Text → Bool
is_json none = false
is_json (some t) = is_json_content_type t
