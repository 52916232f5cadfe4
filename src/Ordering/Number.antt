-- ===== src/Ordering/Number.antt =====
-- `packages/core/src/domain/ordering/order-number.ts`: customer-facing order numbers.
use native.Mathlib.Nat.{mod-lt}
use scos.Prelude.{
  ℕ, zero, suc, ◌%◌, ◌<◌, ◌≡◌, refl, Bool, true, false, ◌&&◌, ◌||◌, List, [], ◌∷◌, ◌++◌, leb, ◌==◌,
  length, all, Text, codes, arith, &&-eq-true,
}

-- CROCKFORD_BASE32 and ORDER_NUMBER_LENGTH
abbrev pub crockford_base32 : Text
crockford_base32 = codes "0123456789ABCDEFGHJKMNPQRSTVWXYZ"

abbrev pub order_number_length : ℕ
order_number_length = 12

-- What appending `text[i]` to a string appends.
unfoldable pub char_at : Text → ℕ → Text
char_at [] i = codes "undefined"
char_at (c ∷ t) zero = c ∷ []
char_at (c ∷ t) (suc i) = char_at t i

-- The loop over the random bytes; `byte & 0b11111` is the byte modulo 32.
unfoldable pub suffix_of : List ℕ → Text
unfolding char_at
suffix_of [] = []
suffix_of (byte ∷ bytes) = char_at crockford_base32 (byte % 32) ++ suffix_of bytes

-- `generateOrderNumber`, with the bytes that `crypto.getRandomValues` fills in
unfoldable pub generate_order_number : List ℕ → Text
unfolding suffix_of
generate_order_number bytes = codes "SO-" ++ suffix_of bytes

abbrev within : ℕ → ℕ → ℕ → Bool
within low high c = leb low c && leb c high

-- `[0-9A-HJKMNP-TV-Z]`
unfoldable pub is_order_number_char : ℕ → Bool
is_order_number_char c =
    within b'0' b'9' c
    || within b'A' b'H' c
    || c == b'J'
    || c == b'K'
    || c == b'M'
    || c == b'N'
    || within b'P' b'T' c
    || within b'V' b'Z' c

-- `ORDER_NUMBER_PATTERN.test(text)`
unfoldable pub matches_order_number : Text → Bool
unfolding is_order_number_char
matches_order_number (s ∷ o ∷ dash ∷ rest) =
    s == b'S' && o == b'O' && dash == b'-' && length rest == 12 && all is_order_number_char rest
matches_order_number _ = false

char_at_lem :
    (p : ℕ → Bool) (t : Text) (i : ℕ)
    → all p t ≡ true
    → i < length t
    → (c : ℕ) × (char_at t i ≡ c ∷ []) × (p c ≡ true)
unfolding char_at
char_at_lem p [] i h l = absurd (omega arith)
char_at_lem p (c ∷ t) zero h l = (c, refl, (&&-eq-true _ _ h).0)
char_at_lem p (c ∷ t) (suc i) h l = char_at_lem p t i (&&-eq-true _ _ h).1 (omega arith)

alphabet_in_class : all is_order_number_char crockford_base32 ≡ true
unfolding is_order_number_char
alphabet_in_class = refl

suffix_of_lem :
    (bytes : List ℕ)
    → (length (suffix_of bytes) ≡ length bytes)
      × (all is_order_number_char (suffix_of bytes) ≡ true)
unfolding suffix_of
suffix_of_lem [] = (refl, refl)
suffix_of_lem (byte ∷ bytes) =
    let (c, e, k) =
      char_at_lem is_order_number_char crockford_base32 (byte % 32) alphabet_in_class
        (mod-lt byte (omega arith)) in
    let (l, h) = suffix_of_lem bytes in rw e (omega (arith, l), rw (k, h) refl)

-- Whatever twelve bytes the random source returns, the generated number matches the pattern.
pub generate_order_number-matches :
    (bytes : List ℕ)
    → length bytes ≡ order_number_length
    → matches_order_number (generate_order_number bytes) ≡ true
unfolding generate_order_number matches_order_number
generate_order_number-matches bytes h = let (l, k) = suffix_of_lem bytes in rw (l, h, k) refl
