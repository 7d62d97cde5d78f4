-- ===== src/Lib.antt =====
-- rvem, an emulator of RV32I and RV64I with the M extension.
--
-- The program. `main` (src/main.c) puts an image into the ROM and then, while the program goes on
-- and the limit of cycles is not reached, reads a word at pc through the bus and gives it to
-- `process_instr` (src/cpu/core.c). That takes the word apart with the macros of inc/riscv.h,
-- computes on the registers (with inc/mul.h for the M extension and SRA of inc/common.h for
-- arithmetic shifts), loads and stores through inc/bus.h and inc/cpu.h, reads counters through
-- inc/csr.h, and counts cycles with the macros of inc/perf.h.
--
-- The files.
--   Common    tests, integers, bit fields and machine words over the native numbers
--   Arch      inc/arch.h: widths, memory map, limits; a build as a `Config`
--   Shift     inc/common.h: SRAW and SRA; Shift/Extend has the SIGN_EXTEND macros
--   Riscv     inc/riscv.h: codes and fields; Riscv/Encode has the instruction formats of the manual,
--             written independently of the macros
--   Mul       inc/mul.h: rv_mul ... rv_remuw and mulhudw
--   Machine   cpu_t, instr_t, perf_model_t and the counters; commands on them; Machine/Safe has the
--             invariant and the commands that keep it, Machine/Blind those that do not look at the
--             counters, Machine/Steady those that take no cycles
--   Perf      inc/perf.h: the PERF_MODEL macros
--   Csr       inc/csr.h and src/cpu/csr.c: read_csr, write_csr and the initial counters
--   Bus       inc/bus.h and inc/cpu.h: bus_read, bus_write and the reads and writes of all widths
--   Alu       the inner switches of process_instr; Alu/Spec and Alu/Product say what the manual says
--   Exec      the cases of the outer switch, a command for each
--   Core      process_instr
--   Host      src/main.c: load_rom_binary, the loop, the report and main; Host/Turns has the rule for
--             an invariant of the loop, Host/Trace how its rounds end
--   Isa       the instruction set of the manual on the memory map of inc/bus.h: the instructions
--             with their encodings (Isa), their steps on a hart (Isa/Hart), process_instr against
--             them (Isa/Refinement), the loop of main on a program of them (Isa/Program), the cycles
--             of each (Isa/Cycles, against process_instr in Isa/Clock), the whole state with the
--             counters (Isa/Clocked), main with the cycles (Isa/Total and Isa/Main), and what of the
--             state a program sees (Isa/Visible)
--   Librv     sdk/librv: putchar_ and the queries of the counters, run by the emulator
--   Examples  tests, and the theorems at concrete arguments
--
-- The model. A value of reg_t is a number below 2 ^ XLEN, and arithmetic on it is taken modulo
-- 2 ^ XLEN; a value of sreg_t is its bit pattern in a register, and the integer that it stands for
-- where it is compared, multiplied or divided. Signed overflow wraps around, which C leaves
-- undefined. The globals are one record `Machine`, a statement is a command `M A`, a function from
-- the state to a value and the next state, and an index outside an array is `none`: so a theorem
-- that a command returns also says that it stays inside the arrays. What the emulator prints is a
-- list of events. A `switch` is a function from the code to a data type with a constructor for the
-- default, and a function on that type by clauses; a value that no case stores is `none`.
--
-- The bounds. The loop of main is run on fuel, one unit for a test of its condition. An instruction
-- adds at least one cycle, so the cycles that are left below the limit, and one unit more for the
-- last test, are enough from any valid state. The loop that queries a counter is run on fuel too,
-- one unit for a round; two are enough, since the upper half changes at most once in so short a
-- time.
--
-- Outside the repository. What fopen finds is a function from the name to the bytes of the file,
-- or to nothing; fread gives them as far as they fit. The intrinsics of MSVC are arguments of the
-- functions of inc/mul.h that call them. The assembler and the C compiler of the guest are not
-- modelled: the words of the inline assembly are written out, with the registers that the compiler
-- picks as arguments.
--
-- Not modelled: the clock and the frequency that main computes from it (it is printed as an event
-- without its value); errno.c, the start-up code, the linker script and the test programs of the
-- guest; the vendored printf.
pub mod Common
pub mod Arch
pub mod Shift
pub mod Riscv
pub mod Mul
pub mod Machine
pub mod Perf
pub mod Csr
pub mod Bus
pub mod Alu
pub mod Exec
pub mod Core
pub mod Host
pub mod Isa
pub mod Librv
pub mod Examples
