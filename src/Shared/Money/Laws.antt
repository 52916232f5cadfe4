-- ===== src/Shared/Money/Laws.antt =====
-- What the operations of Money do, in cents.
use scos.Prelude.{
  ℕ, ◌+◌, ◌*◌, ◌/◌, ◌-◌, ◌^◌, ◌≤◌, ◌<◌, ◌≡◌, sym, ◌∙◌, true, false, some, ltb, ◌==◌, arith,
  if◌then◌else◌,
}
use scos.Decimal.{Decimals, IsExact}
use scos.Shared.Errors.{ok, throws, invalid_amount, amount_out_of_range}
use scos.Shared.Money.{
  Money, from_decimal, round_to_cents, add, subtract, equals, money_max, money_max_cents,
  money_scale,
}

module _ {D : Type 0} ⦃d : Decimals D⦄ (x : IsExact D) where
  open x use {units}

  -- `m` is exactly `c` cents, and storable.
  abbrev pub Cents : Money D → ℕ → Type 0
  Cents m c = (units 2 m.amount ≡ some c) × (c ≤ money_max_cents)

  units-money_max : units 2 (money_max {D = D}) ≡ some money_max_cents
  unfolding money_max
  units-money_max = x.units-decimal money_max_cents 2

  units-zero : units 2 (d.decimal 0 0) ≡ some 0
  units-zero = x.units-rescale (d.decimal 0 0) 0 2 0 (x.units-decimal 0 0)

  module _ (a : D) (c : ℕ) (u : units 2 a ≡ some c) where
    finite : d.is_finite a ≡ true
    finite = x.is_finite_of_units a 2 c u

    not_negative : d.less_than a (d.decimal 0 0) ≡ false
    not_negative = ground (arith, x.less_than-units a (d.decimal 0 0) 2 c 0 u units-zero)

    at_scale : ltb 2 (d.decimal_places a) ≡ false
    at_scale = ground (arith, x.decimal_places_of_units a 2 c u)

    range_test : d.greater_than a money_max ≡ ltb money_max_cents c
    range_test = x.greater_than-units a money_max 2 c money_max_cents u units-money_max

    -- The constructor at an amount that is exact in cents: stored as it is, or out of range.
    from_decimal_lem : from_decimal a ≡ (
        if ltb money_max_cents c
        then throws amount_out_of_range
        else ok (record { amount = d.abs a }))
    unfolding from_decimal
    from_decimal_lem = rw (finite, not_negative, at_scale, range_test)

    pub from_decimal-Cents :
        c ≤ money_max_cents → (m : Money D) × (from_decimal a ≡ ok m) × Cents m c
    from_decimal-Cents le =
        (record { amount = d.abs a }, ground (arith, from_decimal_lem), (x.abs-units a 2 c u, le))

    pub from_decimal-out_of_range :
        money_max_cents < c → from_decimal a ≡ throws amount_out_of_range
    from_decimal-out_of_range lt = ground (arith, from_decimal_lem)

  passed_guards :
      (a : D) (m : Money D)
      → from_decimal a ≡ ok m
      → (d.is_finite a ≡ true)
        × (d.less_than a (d.decimal 0 0) ≡ false)
        × (d.decimal_places a ≤ money_scale)
  unfolding from_decimal
  passed_guards a m h = ground arith

  -- A Money is constructed only from an amount that is exactly a storable number of cents, which
  -- it keeps.
  pub Cents_of_from_decimal :
      (a : D) (m : Money D) → from_decimal a ≡ ok m → (c : ℕ) × (units 2 a ≡ some c) × Cents m c
  Cents_of_from_decimal a m h =
      let (fin, nonneg, places) = passed_guards a m h in
      let (n, at_own_scale) = x.units_of_finite a fin nonneg in
      let (c, u) = x.units_of_decimal_places a 2 _ n at_own_scale places in
      let stored = sym (from_decimal_lem a c u) ∙ h in
      let within : c ≤ money_max_cents = ground arith in
      let same : record { amount = d.abs a } ≡ m = ground arith in
      (c, u, (rw (← same) (x.abs-units a 2 c u), within))

  pub add-Cents :
      (m n : Money D) (b c : ℕ)
      → Cents m b
      → Cents n c
      → b + c ≤ money_max_cents
      → (s : Money D) × (add m n ≡ ok s) × Cents s (b + c)
  unfolding add
  add-Cents m n b c h k le =
      from_decimal-Cents (d.plus m.amount n.amount) (b + c)
        (x.plus-units m.amount n.amount 2 b c h.0 k.0 (omega arith)) le

  pub add-out_of_range :
      (m n : Money D) (b c : ℕ)
      → Cents m b
      → Cents n c
      → money_max_cents < b + c
      → add m n ≡ throws amount_out_of_range
  unfolding add
  add-out_of_range m n b c h k lt =
      from_decimal-out_of_range (d.plus m.amount n.amount) (b + c)
        (x.plus-units m.amount n.amount 2 b c h.0 k.0 (omega (arith, h.1, k.1))) lt

  pub subtract-Cents :
      (m n : Money D) (b c : ℕ)
      → Cents m b
      → Cents n c
      → c ≤ b
      → (s : Money D) × (subtract m n ≡ ok s) × Cents s (b - c)
  unfolding subtract
  subtract-Cents m n b c h k le =
      from_decimal-Cents (d.minus m.amount n.amount) (b - c)
        (x.minus-units m.amount n.amount 2 b c h.0 k.0 le (omega (arith, h.1))) (omega (arith, h.1))

  pub subtract-negative :
      (m n : Money D) (b c : ℕ)
      → Cents m b
      → Cents n c
      → b < c
      → subtract m n ≡ throws invalid_amount
  unfolding subtract from_decimal
  subtract-negative m n b c h k lt =
      ground (arith, x.minus_negative m.amount n.amount 2 b c h.0 k.0 lt)

  pub equals-Cents : (m n : Money D) (b c : ℕ) → Cents m b → Cents n c → equals m n ≡ (b == c)
  unfolding equals
  equals-Cents m n b c h k = x.equals-units m.amount n.amount 2 b c h.0 k.0

  -- Rounding an exact amount to cents is half up.
  pub round_to_cents-Cents :
      (a : D) (s n : ℕ)
      → units (2 + s) a ≡ some n
      → (2 * n + 10 ^ s) / (2 * 10 ^ s) ≤ money_max_cents
      → (m : Money D) × (round_to_cents a ≡ ok m) × Cents m ((2 * n + 10 ^ s) / (2 * 10 ^ s))
  unfolding round_to_cents
  round_to_cents-Cents a s n u le =
      from_decimal-Cents (d.round_half_up 2 a) _ (x.round_half_up-units a 2 s n u) le
