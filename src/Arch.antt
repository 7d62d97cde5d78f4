-- ===== src/Arch.antt =====
-- inc/arch.h: the two register widths, the memory map and the limits. A build fixes a width (RV64
-- or not), whether the M extension is in, and the compiler, which picks a variant of mul.h.
use rvem.Common.{ℕ, ◌-◌, ◌*◌, ◌^◌, Bool}

pub data Xlen : Type 0 where
  rv32 rv64 : Xlen

-- The variants of the high multiplication in inc/mul.h; that of MSVC is calls of intrinsics.
pub data Compiler : Type 0 where
  gnu other : Compiler

pub record Config : Type 0 where
  pub xlen : Xlen
  pub m_ext : Bool
  pub compiler : Compiler

-- XLEN, the width of reg_t and sreg_t
abbrev pub bits : Xlen → ℕ
bits rv32 = 32
bits rv64 = 64

-- SHIFT_MAX and SHIFT_MAX_WORD
abbrev pub shift_max : Xlen → ℕ
shift_max rv32 = 0x1F
shift_max rv64 = 0x3F

abbrev pub shift_max_word : ℕ
shift_max_word = 0x1F

-- SIGN_BIT
abbrev pub sign_bit : Xlen → ℕ
sign_bit rv32 = 0x80000000
sign_bit rv64 = 0x8000000000000000

-- REG_MAX, and the bit pattern of SREG_MIN
abbrev pub reg_max : Xlen → ℕ
reg_max x = 2 ^ bits x - 1

abbrev pub max_cycles : ℕ
max_cycles = 1000000000

abbrev pub rom_start : ℕ
rom_start = 0x0

abbrev pub ram_start : ℕ
ram_start = 0x20000000

abbrev pub rom_size : ℕ
rom_size = 512 * 1024

abbrev pub ram_size : ℕ
ram_size = 64 * 1024

abbrev pub xrf_size : ℕ
xrf_size = 32
