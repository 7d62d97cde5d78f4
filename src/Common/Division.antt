-- ===== src/Common/Division.antt =====
-- Quotient and remainder by a variable, where the dividend is given by its two parts.
use Prim.Native.Nat.{ℕ, ◌+◌, ◌-◌, ◌*◌, ◌/◌, ◌%◌, ◌<◌}
use mathlib.Core.Path.{◌≡◌, ap}
use native.Mathlib.Nat.{add-mul-div_right, div-eq_of_lt, mod-eq-sub-div-mul, div-lt_iff_lt-mul}
use native.Mathlib.Nat.{add_comm, div-add-mod', mod-lt}
use native.Mathlib.Omega.{arith}

pub div-parts : (m q r : ℕ) → r < m → (q * m + r) / m ≡ q
div-parts m q r h =
    rw (add_comm (q * m) r, add-mul-div_right r q {z = m} (omega arith), div-eq_of_lt h)
      (omega arith)

pub mod-parts : (m q r : ℕ) → r < m → (q * m + r) % m ≡ r
mod-parts m q r h = rw (mod-eq-sub-div-mul, div-parts m q r h) (omega arith)

pub div-lt : (x m k : ℕ) → x < m * k → 0 < k → x / k < m
div-lt x m k h p = (div-lt_iff_lt-mul p).1 h

-- The complement of a quotient is the quotient of the complement.
pub complement-div : (p q x : ℕ) → 0 < p → x < q * p → (q * p - 1 - x) / p ≡ q - 1 - x / p
complement-div p q x pos h =
    rw parts (div-parts p (q - 1 - x / p) (p - 1 - x % p) (omega (arith, mod-lt x pos)))
  where
    spread : (q - 1 - x / p) * p + x / p * p + p ≡ q * p
    spread =
        let below : x / p < q = div-lt x q p h pos in
        let e : q - 1 - x / p + x / p + 1 ≡ q = omega arith in
        omega (arith, ap (λ (t : ℕ). t * p) e)

    parts : q * p - 1 - x ≡ (q - 1 - x / p) * p + (p - 1 - x % p)
    parts = omega (arith, spread, div-add-mod' x p, mod-lt x pos)
