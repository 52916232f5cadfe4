-- ===== src/Ordering/Key/Laws.antt =====
-- A valid key as PostgreSQL stores it: its Unicode code points.
use scos.Prelude.{
  ℕ, ◌+◌, ◌-◌, ◌*◌, ◌/◌, ◌%◌, ◌≤◌, ◌<◌, ◌≡◌, refl, sym, ◌∙◌, ap, true, false, List, [], ◌∷◌, ltb,
  leb, leb→le, if◌then◌else◌, length, All, Text, arith, Bool-cases, inl, inr, text_eq,
  eq_of_text_eq,
}
use scos.Js.{Floats, text}
use scos.Zod.{Zod, IsZod}
use scos.Ordering.Key.{
  is_high, is_low, is_well_formed, includes_nul, trim, submission_key_schema, submission_key_valid,
  submission_key_max_length,
}

-- The code points of a text, a surrogate pair being one.
unfoldable pub code_points : Text → List ℕ
code_points [] = []
code_points (c ∷ []) = c ∷ []
code_points (c ∷ e ∷ t) =
    let pair = (65_536 + (c - 55_296) * 1024 + (e - 56_320)) ∷ code_points t in
    let single = c ∷ code_points (e ∷ t) in if is_high c then pair else single

unfoldable pub from_code_points : List ℕ → Text
from_code_points [] = []
from_code_points (p ∷ ps) =
    let rest = from_code_points ps in
    if ltb p 65_536
    then p ∷ rest
    else (55_296 + (p - 65_536) / 1024) ∷ (56_320 + (p - 65_536) % 1024) ∷ rest

abbrev pub IsUnit : ℕ → Type 0
IsUnit c = c < 65_536

-- The two halves of a pair can be read back from its code point.
abbrev pair_point : ℕ → ℕ → ℕ
pair_point c e = 65_536 + (c - 55_296) * 1024 + (e - 56_320)

pair_point_lem :
    (c e : ℕ)
    → is_high c ≡ true
    → is_low e ≡ true
    → (ltb (pair_point c e) 65_536 ≡ false)
      × (55_296 + (pair_point c e - 65_536) / 1024 ≡ c)
      × (56_320 + (pair_point c e - 65_536) % 1024 ≡ e)
pair_point_lem c e h l =
    let low : 56_320 ≤ e = ground arith in
    let below : e < 57_344 = ground arith in
    let high : 55_296 ≤ c = ground arith in (ground arith, omega arith, omega arith)

unit_test : (c : ℕ) → IsUnit c → ltb c 65_536 ≡ true
unit_test c u = ground arith

-- A well-formed text can be read back from its code points.
pub from_code_points-code_points :
    (t : Text) → All IsUnit t → is_well_formed t ≡ true → from_code_points (code_points t) ≡ t
unfolding from_code_points code_points is_well_formed
from_code_points-code_points [] u h = refl
from_code_points-code_points (c ∷ []) (u, _) h = rw (unit_test c u) refl
from_code_points-code_points (c ∷ e ∷ t) (u, (v, us)) h = elim (Bool-cases (is_high c)) [
  | inl high ↦
      let formed : (is_low e ≡ true) × (is_well_formed t ≡ true) = ground arith in
      let (large, first, second) = pair_point_lem c e high formed.0 in
      rw (high, large, first, second)
        (ap (λ r. c ∷ e ∷ r) (from_code_points-code_points t us formed.1))
  | inr other ↦
      let formed : is_well_formed (e ∷ t) ≡ true = ground arith in
      rw (other, unit_test c u) (ap (◌∷◌ c) (from_code_points-code_points (e ∷ t) (v, us) formed))
]

pub length-code_points : (t : Text) → length (code_points t) ≤ length t
unfolding code_points
length-code_points [] = omega arith
length-code_points (c ∷ []) = omega arith
length-code_points (c ∷ e ∷ t) = ground (arith, length-code_points t, length-code_points (e ∷ t))

module _ {N : Type 0} ⦃f : Floats N⦄ ⦃z : Zod N⦄ (schemas : IsZod N) where
  -- What the column stores of a key.
  pub record IsStorable (key : Text) : Type 0 where
    pub not_empty : 1 ≤ length key
    pub fits : length (code_points key) ≤ submission_key_max_length
    pub no_nul : includes_nul key ≡ false
    pub trimmed : trim key ≡ key
    pub readable : from_code_points (code_points key) ≡ key

  -- A valid key of 16-bit code units fits the column: it is not empty, has at most 255
  -- code points, no NUL and no surrounding white space, and can be read back from its code points.
  pub submission_key_valid-IsStorable :
      (key : Text) → submission_key_valid N key ≡ true → All IsUnit key → IsStorable key
  unfolding submission_key_valid
  submission_key_valid-IsStorable key h units =
      let passed = sym (schemas.string_lem submission_key_schema (text key)) ∙ h in
      let checks : (leb 1 (length key) ≡ true)
          × (leb (length key) 255 ≡ true)
          × (text_eq (trim key) key ≡ true)
          × (includes_nul key ≡ false)
          × (is_well_formed key ≡ true) =
        ground arith in
      let (low, high, trims, nul, formed) = checks in
      record {
        not_empty = leb→le 1 _ low;
        fits = omega (arith, length-code_points key, leb→le _ 255 high);
        no_nul = nul;
        trimmed = eq_of_text_eq (trim key) key trims;
        readable = from_code_points-code_points key units formed;
      }
