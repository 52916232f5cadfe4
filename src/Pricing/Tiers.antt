-- ===== src/Pricing/Tiers.antt =====
-- The tier that a quantity gets.
use scos.Prelude.{ℕ, ◌≤◌, ◌≡◌, arith, ltb, if◌then◌else◌}
use scos.Decimal.Plain.{plain_decimal}
use scos.Pricing.{discount_rate_for}

-- The percentage of the volume discount, as the commercial rule states it.
abbrev pub percent_for : ℕ → ℕ
percent_for q =
    if ltb q 25
    then 0
    else if ltb q 50
    then 5
    else if ltb q 100
    then 10
    else if ltb q 250
    then 15
    else 20

-- The rate string of a quantity reads as the percentage of its highest qualifying tier.
pub plain_decimal-discount_rate_for :
    (q : ℕ) → plain_decimal (discount_rate_for q) ≡ (percent_for q, 2)
unfolding plain_decimal discount_rate_for
plain_decimal-discount_rate_for q = ground arith

-- A larger quantity never gets a lower rate.
pub percent_for_mono : (p q : ℕ) → p ≤ q → percent_for p ≤ percent_for q
percent_for_mono p q h = ground arith

pub percent_for_bound : (q : ℕ) → percent_for q ≤ 20
percent_for_bound q = ground arith
