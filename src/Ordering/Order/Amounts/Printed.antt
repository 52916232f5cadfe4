-- ===== src/Ordering/Order/Amounts/Printed.antt =====
-- `Money.parse` of what `Money.prototype.toString` prints.
use scos.Prelude.{
  ℕ, ◌/◌, ◌^◌, ◌<◌, ◌≡◌, refl, ap, ◌∙◌, Bool, true, false, ◌&&◌, Option, some, none, [], ◌∷◌, ◌++◌,
  all, length, leb, le→leb, ==_iff, &&-eq-true, arith, Text, ◌==◌,
}
use scos.Decimal.{Decimals, IsExact}
use scos.Decimal.Digits.{digits, fixed_text}
use scos.Decimal.Plain.{decimal_of_text}
use scos.Decimal.Plain.Printed.{
  is_decimal_digit, all-digits, length-digits, cents_text, fixed_text_cents,
  plain_decimal-fixed_text,
}
use scos.Shared.Errors.{ok}
use scos.Shared.Money.{Money, from_decimal, to_string}
use scos.Shared.Money
use scos.Shared.Money.Laws.{Cents, from_decimal-Cents}
use scos.Ordering.Order.Amounts.{split_point, matches_plain_decimal, parse}

split-digits :
    (ds t : Text) → all is_decimal_digit ds ≡ true → split_point (ds ++ b'.' ∷ t) ≡ (ds, some t)
unfolding split_point
split-digits [] t h = refl
split-digits (c ∷ ds) t h =
    let (first, rest) = &&-eq-true (is_decimal_digit c) (all is_decimal_digit ds) h in
    let other : (c == b'.') ≡ false = ground (arith, first) in
    rw (other, split-digits ds t rest) refl

-- /^\d{1,10}\.\d{2}$/ of `moneySchema` in `apps/api/src/http/schemas.ts`
abbrev pub two_digits : Option Text → Bool
two_digits none = false
two_digits (some t) = length t == 2 && all is_decimal_digit t

unfoldable pub matches_money : Text → Bool
matches_money value =
    let parts = split_point value in
    leb 1 (length parts.0)
    && leb (length parts.0) 10
    && all is_decimal_digit parts.0
    && two_digits parts.1

module _ (c : ℕ) (le : c < 10 ^ 12) where
  printed-split : split_point (fixed_text 2 c) ≡ (digits 40 (c / 100), some (cents_text c))
  printed-split =
      rw (fixed_text_cents c)
        (split-digits (digits 40 (c / 100)) (cents_text c) (all-digits 40 (c / 100)))

  matches-fixed_text :
      (matches_plain_decimal (fixed_text 2 c) ≡ true) × (matches_money (fixed_text 2 c) ≡ true)
  unfolding matches_plain_decimal matches_money
  matches-fixed_text =
      let size = length-digits 40 (c / 100) 9 (omega (arith, le)) in
      let low = le→leb _ _ size.0 in
      let high = le→leb _ _ size.1 in
      let plain = all-digits 40 (c / 100) in
      (
        rw (printed-split, low, high, plain) (ground arith),
        rw (printed-split, low, high, plain) (ground arith),
      )

module _ {D : Type 0} ⦃d : Decimals D⦄ (x : IsExact D) (m : Money D) (c : ℕ)
    (cents : Cents x m c) where
  printed : to_string m ≡ fixed_text 2 c
  unfolding to_string
  printed = x.to_fixed-units m.amount 2 c cents.0 (omega (arith, cents.1))

  reads_printed : decimal_of_text (fixed_text 2 c) ≡ d.decimal c 2
  unfolding decimal_of_text
  reads_printed = ap (λ p. d.decimal p.0 p.1) (plain_decimal-fixed_text c (omega (arith, cents.1)))

  same_amount : (n : Money D) → Cents x n c → Money.equals n m ≡ true
  unfolding Money.equals
  same_amount n exact = x.equals-units n.amount m.amount 2 c c exact.0 cents.0 ∙ (==_iff c c).1 refl

  -- Parsing what an amount prints as gives an equal amount.
  pub parse-to_string :
      (n : Money D) × (parse (to_string m) ≡ ok n) × Cents x n c × (Money.equals n m ≡ true)
  unfolding parse
  parse-to_string =
      let (n, e, exact) = from_decimal-Cents x (d.decimal c 2) c (x.units-decimal c 2) cents.1 in
      let matches = (matches-fixed_text c (omega (arith, cents.1))).0 in
      (n, rw (printed, matches, reads_printed) e, exact, same_amount n exact)

  -- What an amount prints as matches the schema of the responses.
  pub to_string-matches_money : matches_money (to_string m) ≡ true
  to_string-matches_money = rw printed ((matches-fixed_text c (omega (arith, cents.1))).1)
