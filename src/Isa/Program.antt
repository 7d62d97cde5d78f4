-- ===== src/Isa/Program.antt =====
-- The loop of main runs a program of the instruction set: what is proved of the program from the
-- steps of its instructions holds of the loop.
use rvem.Common.{
  ℕ, suc, ◌+◌, ◌-◌, ◌%◌, ◌^◌, ◌<◌, ◌≤◌, ◌≡◌, arith, Bool, true, false, ◌||◌, some, ◌∷◌, ◌==◌,
  if◌then◌else◌, Bool-cases, inl, inr,
}
use rvem.Common.Word.{sign_extend, u32}
use rvem.Arch.{Xlen, rv32, rv64, bits, Config, ram_start, max_cycles}
use rvem.Riscv.{MemOp}
use rvem.Machine.{Machine, M, ◌>>=◌, unmapped_read}
use rvem.Machine.Safe.{Ensures, Ensures-both, Ensures-and_then, IsValid}
use rvem.Bus.{in_ram, in_rom}
use rvem.Bus.Load.{IsLoad, little4, bus_value, bus_read-value}
use rvem.Bus.Outside.{read_outside}
use rvem.Core.{process_instr}
use rvem.Core.Safety.{process_instr-Completes}
use rvem.Host.{Exit, fetch, turn, run}
use rvem.Host.Turns.{Going, Ending, run-Ending}
use rvem.Host.Loop.{Ends, run-Ends, fetch_lem}
use rvem.Isa.{
  Instruction, alu, alu_imm, shift_imm, mul_div, alu_word, mul_div_word, add_word_imm,
  shift_word_imm, load, store, branch, jal, jalr, lui, auipc, csr_op, ecall, ebreak, fence, encode,
  IsInstruction,
}
use rvem.Isa.Hart.{Hart, hart, Steps}
use rvem.Isa.Refinement.{process_instr-Steps}

-- The word that pc points to, and whether there is one.
abbrev pub word_at : Xlen → Hart → ℕ
word_at x h = if in_ram x h.pc MemOp.w then little4 h.ram (h.pc - ram_start) else little4 h.rom h.pc

abbrev pub is_mapped : Xlen → Hart → Bool
is_mapped x h = in_ram x h.pc MemOp.w || in_rom x h.pc MemOp.w

-- P while the program goes on, Q when it has ended.
abbrev pub Then : (P Q : Hart → Type 0) → Bool → Hart → Type 0
Then P Q true h = P h
Then P Q false h = Q h

-- At h the program ends where Q holds, with a word of zero or with a pc that no array has (the
-- emulator prints the address then), or it has an instruction every step of which leads to P, or
-- to Q where it ends the program.
pub data Codes (cfg : Config) (P Q : Hart → Type 0) (h : Hart) : Type 0 where
  stop : is_mapped cfg.xlen h ≡ true → word_at cfg.xlen h ≡ 0 → Q h → Codes cfg P Q h
  leave :
      is_mapped cfg.xlen h ≡ false
      → Q (record h { output = unmapped_read h.pc ∷ h.output })
      → Codes cfg P Q h
  code :
      (i : Instruction)
      → IsInstruction cfg i
      → is_mapped cfg.xlen h ≡ true
      → word_at cfg.xlen h ≡ encode i
      → ((continue : Bool) (h' : Hart) → Steps cfg.xlen i h continue h' → Then P Q continue h')
      → Codes cfg P Q h

-- What holds where the loop ends.
abbrev pub Meets : (P Q : Hart → Type 0) → Exit → Machine → Type 0
Meets P Q = Ending (λ s. P (hart s)) (λ s. Q (hart s))

little4-lt : (f : ℕ → ℕ) (p : ℕ) → ((i : ℕ) → f i < 2 ^ 8) → little4 f p < 2 ^ 32
little4-lt f p h = omega (arith, h p, h (p + 1), h (p + 2), h (p + 3))

low_word : (x : Xlen) (n : ℕ) → n < 2 ^ 32 → u32 (sign_extend 32 (bits x) n) ≡ n
low_word rv32 n h = ground arith
low_word rv64 n h = ground arith

pub w-IsLoad : (x : Xlen) → IsLoad x MemOp.w
w-IsLoad rv32 = tt
w-IsLoad rv64 = tt

module _ (cfg : Config) (s : Machine) (v : IsValid cfg.xlen s) where
  word_at-lt : word_at cfg.xlen (hart s) < 2 ^ 32
  word_at-lt = elim (Bool-cases (in_ram cfg.xlen s.cpu.pc MemOp.w)) [
    | inl e ↦ rw e (little4-lt s.cpu.ram (s.cpu.pc - ram_start) v.ram_bytes)
    | inr e ↦ rw e (little4-lt s.cpu.rom s.cpu.pc v.rom_bytes)
  ]

  word_at-bus_value : u32 (bus_value cfg.xlen s.cpu.pc MemOp.w s) ≡ word_at cfg.xlen (hart s)
  word_at-bus_value = elim (Bool-cases (in_ram cfg.xlen s.cpu.pc MemOp.w)) [
    | inl e ↦ rw e (low_word cfg.xlen _ (little4-lt s.cpu.ram (s.cpu.pc - ram_start) v.ram_bytes))
    | inr e ↦ rw e (low_word cfg.xlen _ (little4-lt s.cpu.rom s.cpu.pc v.rom_bytes))
  ]

  -- The fetch of a word.
  pub fetch-word_at :
      is_mapped cfg.xlen (hart s) ≡ true
      → (k : ℕ) × (fetch cfg s ≡ some (word_at cfg.xlen (hart s), record s { mcycle = k }))
  unfolding fetch
  fetch-word_at mapped =
      let (k, reads) =
        bus_read-value cfg.xlen s.cpu.pc MemOp.w s (w-IsLoad cfg.xlen) v.pc_range mapped v.ram_bytes
          v.rom_bytes in
      (k, rw (reads, word_at-bus_value))

  pub fetch_outside :
      is_mapped cfg.xlen (hart s) ≡ false
      → fetch cfg s ≡ some (0, record s { output = unmapped_read s.cpu.pc ∷ s.output })
  unfolding fetch
  fetch_outside outside = rw (read_outside cfg.xlen s.cpu.pc MemOp.w s outside)

-- No instruction is a word of zero.
pub encode-odd : (i : Instruction) → encode i % 2 ≡ 1
encode-odd (alu op a b c) = omega arith
encode-odd (alu_imm op a b c) = omega arith
encode-odd (shift_imm op a b c) = omega arith
encode-odd (mul_div op a b c) = omega arith
encode-odd (alu_word op a b c) = omega arith
encode-odd (mul_div_word op a b c) = omega arith
encode-odd (add_word_imm a b c) = omega arith
encode-odd (shift_word_imm op a b c) = omega arith
encode-odd (load op a b c) = omega arith
encode-odd (store op a b c) = omega arith
encode-odd (branch op a b c) = omega arith
encode-odd (jal a b) = omega arith
encode-odd (jalr a b c) = omega arith
encode-odd (lui a b) = omega arith
encode-odd (auipc a b) = omega arith
encode-odd (csr_op op a b c) = omega arith
encode-odd ecall = omega arith
encode-odd ebreak = omega arith
encode-odd (fence a) = omega arith

module _ (cfg : Config) (P Q : Hart → Type 0) (codes : (h : Hart) → P h → Codes cfg P Q h) where
  going :
      (continue : Bool) (t : Machine)
      → Then P Q continue (hart t)
      → Going (λ u. P (hart u)) (λ u. Q (hart u)) continue t
  going true t p = p
  going false t q = q

  executes :
      (i : Instruction) (rest : Bool → M Exit) (s : Machine)
      → IsInstruction cfg i
      → IsValid cfg.xlen s
      → ((continue : Bool) (h' : Hart)
          → Steps cfg.xlen i (hart s) continue h'
          → Then P Q continue h')
      → ((continue : Bool) (t : Machine)
          → IsValid cfg.xlen t
          → Going (λ u. P (hart u)) (λ u. Q (hart u)) continue t
          → Ensures (Meets P Q) (rest continue t))
      → Ensures (Meets P Q) ((do continue ← process_instr cfg (encode i); rest continue) s)
  executes i rest s is v leads next =
      Ensures-and_then _ _ (process_instr cfg (encode i) s) _
        (Ensures-both _ _ (process_instr cfg (encode i) s) (process_instr-Steps cfg i s is v)
          (process_instr-Completes cfg (encode i) s v))
        λ continue t (steps, done).
          next continue t done.valid (going continue t (leads continue (hart t) steps))

  turn-Meets :
      (rest : Bool → M Exit) (s : Machine)
      → IsValid cfg.xlen s
      → s.mcycle < max_cycles
      → P (hart s)
      → ((continue : Bool) (t : Machine)
          → IsValid cfg.xlen t
          → Going (λ u. P (hart u)) (λ u. Q (hart u)) continue t
          → Ensures (Meets P Q) (rest continue t))
      → Ensures (Meets P Q) (turn cfg rest s)
  unfolding turn
  turn-Meets rest s v below p next = elim (codes (hart s) p) [
    | stop mapped none_there q ↦
        let (k, fetched) = fetch-word_at cfg s v mapped in rw (fetched, none_there) q
    | leave outside q ↦ rw (fetch_outside cfg s v outside) q
    | code i is mapped word leads ↦
        let (k, fetched) = fetch-word_at cfg s v mapped in
        let (valid, _) = rw fetched at (fetch_lem cfg s v) in
        let odd : encode i % 2 ≡ 1 = encode-odd i in
        let nonzero : (encode i == 0) ≡ false = ground arith in
        rw (fetched, word, nonzero) (executes i rest (record s { mcycle = k }) is valid leads next)
  ]

  -- What is proved of a program from the steps of its instructions holds of the loop of main. Let P
  -- hold of the hart at the start, and let every hart of P be at a word of zero or at a pc of
  -- neither array, where the program ends and Q holds, or at an instruction every step of which
  -- leads to P, or to Q where the step ends the program. Then from a valid state the loop ends, in
  -- a valid state; Q holds where it ends by a word of zero or by halting, and P or Q where it stops
  -- at the limit of cycles. The fuel is one more than the cycles that are left below the limit.
  pub run-Meets :
      (fuel : ℕ) (s : Machine)
      → IsValid cfg.xlen s
      → P (hart s)
      → max_cycles ≤ s.mcycle + fuel
      → Ensures (λ e t. Ends cfg s e t × Meets P Q e t) (run (suc fuel) cfg true s)
  run-Meets fuel s v p enough =
      Ensures-both _ _ (run (suc fuel) cfg true s) (run-Ends cfg fuel true s v enough)
        (run-Ending cfg (λ u. P (hart u)) (λ u. Q (hart u)) turn-Meets (suc fuel) true s v p)
