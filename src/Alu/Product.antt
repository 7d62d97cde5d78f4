-- ===== src/Alu/Product.antt =====
-- The M extension as the RISC-V manual states it, and that the inner switch computes it.
use rvem.Common.{ℕ, ◌-◌, ◌*◌, ◌/◌, ◌%◌, ◌^◌, ◌<◌, ◌≡◌, refl, arith, some, ◌==◌, if◌then◌else◌}
use rvem.Common.Int.{ℤ, pos, ◌*ℤ◌, shr_ℤ}
use rvem.Common.Word.{to_signed, of_signed, Fits, to_signed-Fits}
use rvem.Arch.{Xlen, rv32, rv64, bits, Config}
use rvem.Riscv.{MulOp}
use rvem.Mul.{rv_mulh, rv_mulhsu, rv_mulhu, rv_div, rv_divu, rv_rem, rv_remu}
use rvem.Mul.High.{rv_mulh-shr, rv_mulhsu-shr, rv_mulhu-div}
use rvem.Mul.Division.{IsDivision, rv_div-rv_rem-IsDivision}
use rvem.Alu.{mul_div}

-- The instructions that there are.
abbrev pub IsMulOp : MulOp → Type 0
IsMulOp MulOp.none = ⊥
IsMulOp _ = Unit

-- What the manual says of the register v that an operation on registers a and b leaves.
abbrev pub IsMulDiv : Xlen → MulOp → (a b v : ℕ) → Type 0
IsMulDiv x MulOp.mul a b v = v ≡ a * b % 2 ^ bits x
IsMulDiv x MulOp.mulh a b v =
    to_signed (bits x) v ≡ shr_ℤ (to_signed (bits x) a *ℤ to_signed (bits x) b) (bits x)
IsMulDiv x MulOp.mulhsu a b v =
    to_signed (bits x) v ≡ shr_ℤ (to_signed (bits x) a *ℤ pos b) (bits x)
IsMulDiv x MulOp.mulhu a b v = v ≡ a * b / 2 ^ bits x
IsMulDiv x MulOp.div a b v =
    (q : ℤ) × (r : ℤ) × IsDivision (bits x) (to_signed (bits x) a) (to_signed (bits x) b) q r
    × (v ≡ of_signed (bits x) q)
IsMulDiv x MulOp.divu a b v = v ≡ (if b == 0 then 2 ^ bits x - 1 else a / b)
IsMulDiv x MulOp.rem a b v =
    (q : ℤ) × (r : ℤ) × IsDivision (bits x) (to_signed (bits x) a) (to_signed (bits x) b) q r
    × (v ≡ of_signed (bits x) r)
IsMulDiv x MulOp.remu a b v = v ≡ (if b == 0 then a else a % b)
IsMulDiv x MulOp.none a b v = ⊥

signed_Fits : (x : Xlen) (a : ℕ) → a < 2 ^ bits x → Fits (bits x) (to_signed (bits x) a)
signed_Fits rv32 a h = to_signed-Fits 32 a (omega arith) h
signed_Fits rv64 a h = to_signed-Fits 64 a (omega arith) h

module _ (cfg : Config) (a b : ℕ) (h : a < 2 ^ bits cfg.xlen) (k : b < 2 ^ bits cfg.xlen) where
  pub mul_div-IsMulDiv :
      (op : MulOp)
      → IsMulOp op
      → (v : ℕ) × (mul_div cfg op a b ≡ some v) × IsMulDiv cfg.xlen op a b v
  unfolding mul_div rv_divu rv_remu rvem.Mul.rv_mul
  mul_div-IsMulDiv MulOp.mul i = (_, refl, refl)
  mul_div-IsMulDiv MulOp.mulh i = (
    _,
    refl,
    rv_mulh-shr cfg.compiler cfg.xlen _ _ (signed_Fits cfg.xlen a h) (signed_Fits cfg.xlen b k),
  )
  mul_div-IsMulDiv MulOp.mulhsu i =
      (_, refl, rv_mulhsu-shr cfg.compiler cfg.xlen _ b (signed_Fits cfg.xlen a h) k)
  mul_div-IsMulDiv MulOp.mulhu i = (_, refl, rv_mulhu-div cfg.compiler cfg.xlen a b h k)
  mul_div-IsMulDiv MulOp.div i = (
    _,
    refl,
    (
      _,
      _,
      rv_div-rv_rem-IsDivision cfg.xlen _ (to_signed (bits cfg.xlen) b) (signed_Fits cfg.xlen a h),
      refl,
    ),
  )
  mul_div-IsMulDiv MulOp.divu i = (_, refl, refl)
  mul_div-IsMulDiv MulOp.rem i = (
    _,
    refl,
    (
      _,
      _,
      rv_div-rv_rem-IsDivision cfg.xlen _ (to_signed (bits cfg.xlen) b) (signed_Fits cfg.xlen a h),
      refl,
    ),
  )
  mul_div-IsMulDiv MulOp.remu i = (_, refl, refl)
  mul_div-IsMulDiv MulOp.none i = absurd i
