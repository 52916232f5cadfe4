-- ===== src/Prelude/Power.antt =====
-- Powers of ten at a variable exponent.
use Prim.Native.Nat.{ℕ, zero, suc, ◌+◌, ◌*◌, ◌^◌, ◌<◌}
use mathlib.Core.Path.{◌≡◌}
use native.Mathlib.Omega.{arith}
use native.Mathlib.Nat.{add-zero, pow-zero, pow-suc, one-le-pow, add-suc}

pub pow-add_ten : (a b : ℕ) → 10 ^ (a + b) ≡ 10 ^ a * 10 ^ b
pow-add_ten a zero = rw (add-zero, pow-zero) (omega arith)
pow-add_ten a (suc b) =
    rw (add-suc, pow-suc 10 (a + b), pow-suc 10 b, pow-add_ten a b) (omega arith)

pub pow_ten_pos : (a : ℕ) → 0 < 10 ^ a
pow_ten_pos a = one-le-pow a 10 (omega arith)
