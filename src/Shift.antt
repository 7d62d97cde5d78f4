-- ===== src/Shift.antt =====
-- inc/common.h: the portable arithmetic shifts right SRAW and SRA, which C builds from a logical
-- shift and a mask of ones. Both work on the bit pattern of a w-bit word.
pub mod Laws
pub mod Extend
use rvem.Common.{ℕ, ◌-◌, ◌^◌, ◌%◌, bit_and, bit_or, ◌==◌, if◌then◌else◌}
use rvem.Common.Word.{u32, ◌<<<◌, ◌>>>◌}
use rvem.Arch.{Xlen, bits, sign_bit}

-- (sh == 0) ? val : (val >> sh) | ((val & sign) ? ~0 << (w - sh) : 0), for a w-bit val.
unfoldable pub shift_right : ℕ → ℕ → ℕ → ℕ → ℕ
shift_right w sign val sh =
    if sh == 0
    then val
    else bit_or (val >>> sh)
        (if bit_and val sign == 0 then 0 else ((2 ^ w - 1) <<< (w - sh)) % 2 ^ w)

unfoldable pub sraw : ℕ → ℕ → ℕ
unfolding shift_right
sraw val sh = shift_right 32 0x80000000 (u32 val) sh

unfoldable pub sra : Xlen → ℕ → ℕ → ℕ
unfolding shift_right
sra x val sh = shift_right (bits x) (sign_bit x) (val % 2 ^ bits x) sh
