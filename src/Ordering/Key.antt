-- ===== src/Ordering/Key.antt =====
-- `packages/core/src/domain/ordering/submission-key.ts`: the client's retry key.
pub mod Laws
use scos.Prelude.{
  ℕ, ◌+◌, ◌≡◌, Bool, true, false, not, ◌&&◌, ◌||◌, List, [], ◌∷◌, ◌++◌, leb, ltb, ◌==◌,
  if◌then◌else◌, Text, text_eq,
}
use scos.Js.{Floats, text}
use scos.Zod.{Zod, StringCheck, refine, is_empty}
use scos.Zod

-- SUBMISSION_KEY_MAX_LENGTH
abbrev pub submission_key_max_length : ℕ
submission_key_max_length = 255

-- The white space and line terminators that `String.prototype.trim` removes.
unfoldable pub is_white_space : ℕ → Bool
is_white_space c =
    (leb 9 c && leb c 13)
    || c == 32
    || c == 160
    || c == 5760
    || (leb 8192 c && leb c 8202)
    || c == 8232
    || c == 8233
    || c == 8239
    || c == 8287
    || c == 12_288
    || c == 65_279

unfoldable pub trim_start : Text → Text
trim_start [] = []
trim_start (c ∷ t) = let rest = trim_start t in if is_white_space c then rest else c ∷ t

unfoldable pub reverse_onto : Text → Text → Text
reverse_onto [] t = t
reverse_onto (c ∷ s) t = reverse_onto s (c ∷ t)

-- `key.trim()`
unfoldable pub trim : Text → Text
unfolding trim_start reverse_onto
trim t = reverse_onto (trim_start (reverse_onto (trim_start t) [])) []

-- `key.includes("\u0000")`
unfoldable pub includes_nul : Text → Bool
includes_nul [] = false
includes_nul (c ∷ t) = c == 0 || includes_nul t

abbrev pub is_high : ℕ → Bool
is_high c = leb 55_296 c && ltb c 56_320

abbrev pub is_low : ℕ → Bool
is_low c = leb 56_320 c && ltb c 57_344

-- `key.isWellFormed()`
unfoldable pub is_well_formed : Text → Bool
is_well_formed [] = true
is_well_formed (c ∷ []) = not (is_high c) && not (is_low c)
is_well_formed (c ∷ e ∷ t) =
    let pair = is_low e && is_well_formed t in
    let single = not (is_low c) && is_well_formed (e ∷ t) in if is_high c then pair else single

abbrev pub submission_key_schema : List StringCheck
submission_key_schema =
    Zod.min_length 1
    ∷ Zod.max_length submission_key_max_length
    ∷ refine (λ key. text_eq (trim key) key)
    ∷ refine (λ key. not (includes_nul key))
    ∷ refine is_well_formed
    ∷ []

-- `submissionKeySchema.safeParse(key).success`
unfoldable pub submission_key_valid : (N : Type 0) ⦃z : Zod N⦄ → Text → Bool
submission_key_valid N ⦃z⦄ key = is_empty (z.string_issues submission_key_schema (text key))
