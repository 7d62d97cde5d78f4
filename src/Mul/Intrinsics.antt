-- ===== src/Mul/Intrinsics.antt =====
-- inc/mul.h: the variant of RV64M for MSVC, by the compiler's intrinsics. They are parameters here:
-- __mulh as `mulh`, __umulh as `umulh`.
use rvem.Common.{ℕ, ◌*◌, ◌/◌, ◌^◌, ◌<◌, ◌≡◌, arith, ap, sym, ◌∙◌}
use rvem.Common.Int.{ℤ, ◌*ℤ◌, shr_ℤ}
use rvem.Common.Word.{of_signed, of_signed-to_signed, of_signed-lt, Fits}
use rvem.Arch.{rv64, gnu}
use rvem.Mul.{minus_if, mulhudw, rv_mulh, rv_mulhsu, rv_mulhsu_software, rv_mulhu}
use rvem.Mul.High.{rv_mulh-shr, rv_mulhu-div, mulhudw-div, software-wide_mixed}
use rvem.Mul.Bounds.{rv_mulh-lt}

module _ (mulh : ℤ → ℤ → ℤ) (umulh : ℕ → ℕ → ℕ) where
  unfoldable pub rv_mulh_msvc : ℤ → ℤ → ℕ
  rv_mulh_msvc a b = of_signed 64 (mulh a b)

  unfoldable pub rv_mulhsu_msvc : ℤ → ℕ → ℕ
  unfolding minus_if
  rv_mulhsu_msvc a b = minus_if a b (umulh (of_signed 64 a) b)

  unfoldable pub rv_mulhu_msvc : ℕ → ℕ → ℕ
  rv_mulhu_msvc a b = umulh a b

-- The same by mulhudw.
mixed_gnu :
    (a : ℤ) (n : ℕ)
    → Fits 64 a
    → n < 2 ^ 64
    → minus_if a n (mulhudw (of_signed 64 a) n) ≡ rv_mulhsu gnu rv64 a n
unfolding rv_mulhsu rv_mulhsu_software
mixed_gnu a n h k = software-wide_mixed a n h k

-- Where the intrinsics are as Microsoft documents them (__mulh gives the upper 64 bits of a signed
-- product of 128 bits, __umulh those of an unsigned one), the three functions of MSVC give what
-- those of GCC and Clang give, for signed words a and b and unsigned words m and n of 64 bits.
pub rv_mulh_msvc-rv_mulh :
    (mulh : ℤ → ℤ → ℤ) (umulh : ℕ → ℕ → ℕ) (a b : ℤ) (m n : ℕ)
    → ((p q : ℤ) → Fits 64 p → Fits 64 q → mulh p q ≡ shr_ℤ (p *ℤ q) 64)
    → ((p q : ℕ) → p < 2 ^ 64 → q < 2 ^ 64 → umulh p q ≡ p * q / 2 ^ 64)
    → Fits 64 a
    → Fits 64 b
    → m < 2 ^ 64
    → n < 2 ^ 64
    → (rv_mulh_msvc mulh umulh a b ≡ rv_mulh gnu rv64 a b)
      × (rv_mulhsu_msvc mulh umulh a n ≡ rv_mulhsu gnu rv64 a n)
      × (rv_mulhu_msvc mulh umulh m n ≡ rv_mulhu gnu rv64 m n)
unfolding rv_mulh_msvc rv_mulhsu_msvc rv_mulhu_msvc
rv_mulh_msvc-rv_mulh mulh umulh a b m n hm hu ha hb km kn = (
  ap (of_signed 64) (hm a b ha hb ∙ sym (rv_mulh-shr gnu rv64 a b ha hb))
      ∙ of_signed-to_signed 64 (rv_mulh gnu rv64 a b) (omega arith) (rv_mulh-lt gnu rv64 a b),
  ap (minus_if a n) (
        hu (of_signed 64 a) n (of_signed-lt 64 a) kn
        ∙ sym (mulhudw-div (of_signed 64 a) n (of_signed-lt 64 a) kn))
      ∙ mixed_gnu a n ha kn,
  hu m n km kn ∙ sym (rv_mulhu-div gnu rv64 m n km kn),
)
