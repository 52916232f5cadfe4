-- ===== src/Telemetry/Config/Headers/Laws.antt =====
-- What the parsed headers are.
use mathlib.Core.Path.{subst}
use scos.Prelude.{
  ℕ, ◌≡◌, ◌≢◌, refl, ap, true, ◌&&◌, Option, some, none, List, [], ◌∷◌, all, All, length, ltb, leb,
  ◌==◌, &&-eq-true, Bool-cases, Option-cases, inl, inr, Text, codes, text_eq, arith,
}
use scos.Telemetry.Config.Headers.{
  UriDecoder, is_token_char, is_header_name, is_value_char, lower_char, to_lower, assign_header,
  set_header, header_of, parse_pair, split_pair, parse_pairs, some_headers, split_commas,
  parse_otlp_headers,
}
use scos.Ordering.Key.{trim}

lower-is_token_char : (c : ℕ) → is_token_char c ≡ true → is_token_char (lower_char c) ≡ true
lower-is_token_char c h = elim (Bool-cases (leb b'A' c && leb c b'Z')) [
  | inl upper ↦ ground arith
  | inr other ↦ rw other h
]

lower-idempotent : (c : ℕ) → lower_char (lower_char c) ≡ lower_char c
lower-idempotent c = ground arith

to_lower-tokens : (t : Text) → all is_token_char t ≡ true → all is_token_char (to_lower t) ≡ true
to_lower-tokens [] h = refl
to_lower-tokens (c ∷ t) h =
    let (first, rest) = &&-eq-true (is_token_char c) (all is_token_char t) h in
    rw (lower-is_token_char c first, to_lower-tokens t rest) refl

to_lower-idempotent : (t : Text) → to_lower (to_lower t) ≡ to_lower t
to_lower-idempotent [] = refl
to_lower-idempotent (c ∷ t) = rw (lower-idempotent c, to_lower-idempotent t) refl

length-to_lower : (t : Text) → length (to_lower t) ≡ length t
length-to_lower [] = refl
length-to_lower (c ∷ t) = ap ℕ.suc (length-to_lower t)

-- A header that can be sent: its name is a token in lower case, and its value is not empty and has
-- no line break and no NUL.
pub record IsHeader (h : Text × Text) : Type 0 where
  pub name_valid : is_header_name h.0 ≡ true
  pub name_lower : to_lower h.0 ≡ h.0
  pub value_present : length h.1 ≢ 0
  pub value_safe : all is_value_char h.1 ≡ true

All-assign_header :
    (name value : Text) (hs : List (Text × Text))
    → IsHeader (name, value)
    → All IsHeader hs
    → All IsHeader (assign_header name value hs)
unfolding assign_header
All-assign_header name value [] h k = (h, tt)
All-assign_header name value ((n, v) ∷ rest) h (p, k) = elim (Bool-cases (text_eq n name)) [
  | inl same ↦ rw same (
    record {
      name_valid = p.name_valid;
      name_lower = p.name_lower;
      value_present = h.value_present;
      value_safe = h.value_safe;
    },
    k,
  )
  | inr other ↦ rw other (p, All-assign_header name value rest h k)
]

All-set_header :
    (name value : Text) (hs : List (Text × Text))
    → IsHeader (name, value)
    → All IsHeader hs
    → All IsHeader (set_header name value hs)
All-set_header name value hs h k = elim (Bool-cases (text_eq name (codes "__proto__"))) [
  | inl proto ↦ rw proto k
  | inr other ↦ rw other (All-assign_header name value hs h k)
]

header_name-to_lower :
    (name : Text) → is_header_name name ≡ true → is_header_name (to_lower name) ≡ true
unfolding is_header_name
header_name-to_lower name h =
    let (present, tokens) = &&-eq-true (ltb 0 (length name)) (all is_token_char name) h in
    rw (length-to_lower name, present, to_lower-tokens name tokens) refl

module _ ⦃uri : UriDecoder⦄ where
  header_of-IsHeader :
      (name : Text) (decoded : Option Text) (h : Text × Text)
      → header_of name decoded ≡ some h
      → IsHeader h
  header_of-IsHeader name none h e = cc
  header_of-IsHeader name (some v) h e =
      let named : is_header_name name ≡ true = ground arith in
      let present : length v ≢ 0 = ground arith in
      let safe : all is_value_char v ≡ true = ground arith in
      let same : (to_lower name, v) ≡ h = ground (arith, named, present, safe) in
      subst IsHeader same (record {
        name_valid = header_name-to_lower name named;
        name_lower = to_lower-idempotent name;
        value_present = present;
        value_safe = safe;
      })

  parse_pair-IsHeader :
      (pair : Text × Option Text) (h : Text × Text) → parse_pair pair ≡ some h → IsHeader h
  parse_pair-IsHeader (before, none) h e = cc
  parse_pair-IsHeader (before, some after) h e = elim (Bool-cases (length before == 0)) [
    | inl nameless ↦ absurd (ground (arith, nameless))
    | inr named ↦
        header_of-IsHeader (trim before) (uri.decode (trim after)) h (ground (arith, named))
  ]

  parse_pairs-All :
      (headers : List (Text × Text)) (pairs : List Text) (hs : List (Text × Text))
      → All IsHeader headers
      → parse_pairs headers pairs ≡ some hs
      → All IsHeader hs
  unfolding parse_pairs
  parse_pairs-All headers [] hs k e = let same : headers ≡ hs = cc in subst (All IsHeader) same k
  parse_pairs-All headers (pair ∷ rest) hs k e = elim (Bool-cases (length (trim pair) == 0)) [
    | inl blank ↦ parse_pairs-All headers rest hs k (rw blank at e)
    | inr present ↦ elim (Option-cases (parse_pair (split_pair pair))) [
      | inl bad ↦ absurd (let stuck = rw (present, bad) at e in cc)
      | inr ((name, value), found) ↦
          let next = rw (present, found) at e in
          parse_pairs-All (set_header name value headers) rest hs
            (All-set_header name value headers
              (parse_pair-IsHeader (split_pair pair) (name, value) found) k)
            next
    ]
  ]

  some_headers-inverse :
      (o : Option (List (Text × Text))) (hs : List (Text × Text))
      → some_headers o ≡ some hs
      → (o ≡ some hs) × (length hs ≢ 0)
  some_headers-inverse none hs e = cc
  some_headers-inverse (some []) hs e = cc
  some_headers-inverse (some (h ∷ rest)) hs e =
      let same : h ∷ rest ≡ hs = cc in (ap some same, λ z. ground (arith, z, ap length same))

  -- Whatever the secret holds, the headers that it is parsed to are not none, and each of them has a
  -- name in lower case that is a token of RFC 9110 and a value that is not empty and has no line
  -- break and no NUL.
  pub parse_otlp_headers-IsHeader :
      (value : Text) (hs : List (Text × Text))
      → parse_otlp_headers value ≡ some hs
      → (length hs ≢ 0) × All IsHeader hs
  unfolding parse_otlp_headers
  parse_otlp_headers-IsHeader value hs e =
      let (parsed, present) = some_headers-inverse (parse_pairs [] (split_commas value)) hs e in
      (present, parse_pairs-All [] (split_commas value) hs tt parsed)
