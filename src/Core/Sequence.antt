-- ===== src/Core/Sequence.antt =====
-- pc stays even: the instructions that set it, and those that go on to the next one.
use rvem.Common.{
  ℕ, ◌+◌, ◌*◌, ◌/◌, ◌%◌, ◌^◌, ◌<◌, ◌≡◌, ◌≢◌, refl, arith, ap, ◌∙◌, Bool, true, false, Option, none,
  some, if◌then◌else◌, bit_and,
}
use rvem.Common.Bits.{bit_and_field}
use rvem.Common.Word.{sign_extend, bit_not}
use rvem.Arch.{Xlen, rv32, rv64, bits, Config}
use rvem.Riscv.{
  Opcode, opcode_of, get_opcode, get_branch_imm, get_jal_imm, get_funct3, get_rs1, get_rs2,
  branch_of,
}
use rvem.Machine.{Machine, pure, ◌>>◌, and_then, wrap, print, get_pc}
use rvem.Machine.Safe.{Ensures, Allows}
use rvem.Alu.Laws.{wrap-lt}
use rvem.Exec.{
  branches, exec_rtype, exec_imm, exec_rtypew, exec_immw, exec_load, exec_store, exec_auipc,
  exec_lui,
}
use rvem.Exec.System.{exec_sys}
use rvem.Riscv.Encode.{b_type, j_type}
use rvem.Riscv.Immediates.{get_branch_imm-b_type, get_jal_imm-j_type}
use rvem.Perf.{cycle}
use rvem.Core.Retire.{Retires}
use rvem.Core.Targets.{branch-Retires, jal-Retires, jalr-Retires}
use rvem.Exec.{exec_fence, exec_unknown}
use rvem.Core.{Outcome, outcome, execute, process_instr, commit}

even13 : (x : Xlen) (v : ℕ) → v % 2 ≡ 0 → sign_extend 13 (bits x) v % 2 ≡ 0
even13 rv32 v h = ground arith
even13 rv64 v h = ground arith

even21 : (x : Xlen) (v : ℕ) → v % 2 ≡ 0 → sign_extend 21 (bits x) v % 2 ≡ 0
even21 rv32 v h = ground arith
even21 rv64 v h = ground arith

-- A word is the encoding of its own fields.
branch_word :
    (raw : ℕ)
    → raw < 2 ^ 32
    → raw
      ≡ b_type
          (raw / 2 ^ 31 * 2 ^ 12
            + raw / 2 ^ 7 % 2 * 2 ^ 11
            + raw / 2 ^ 25 % 2 ^ 6 * 2 ^ 5
            + raw / 2 ^ 8 % 2 ^ 4 * 2)
          (raw / 2 ^ 20 % 2 ^ 5)
          (raw / 2 ^ 15 % 2 ^ 5)
          (raw / 2 ^ 12 % 2 ^ 3)
          (raw % 2 ^ 7)
branch_word raw h = omega arith

jal_word :
    (raw : ℕ)
    → raw < 2 ^ 32
    → raw
      ≡ j_type
          (raw / 2 ^ 31 * 2 ^ 20
            + raw / 2 ^ 12 % 2 ^ 8 * 2 ^ 12
            + raw / 2 ^ 20 % 2 * 2 ^ 11
            + raw / 2 ^ 21 % 2 ^ 10 * 2)
          (raw / 2 ^ 7 % 2 ^ 5)
          (raw % 2 ^ 7)
jal_word raw h = omega arith

branch_imm-even : (x : Xlen) (raw : ℕ) → raw < 2 ^ 32 → get_branch_imm x raw % 2 ≡ 0
branch_imm-even x raw h =
    let imm : ℕ =
      raw / 2 ^ 31 * 2 ^ 12
      + raw / 2 ^ 7 % 2 * 2 ^ 11
      + raw / 2 ^ 25 % 2 ^ 6 * 2 ^ 5
      + raw / 2 ^ 8 % 2 ^ 4 * 2 in
    ap (λ (w : ℕ). get_branch_imm x w % 2) (branch_word raw h)
    ∙ ap (λ (w : ℕ). w % 2)
        (get_branch_imm-b_type x imm (raw / 2 ^ 20 % 2 ^ 5) (raw / 2 ^ 15 % 2 ^ 5)
          (raw / 2 ^ 12 % 2 ^ 3) (raw % 2 ^ 7) (omega arith) (omega arith) (omega arith)
          (omega arith) (omega arith) (omega arith))
    ∙ even13 x imm (omega arith)

jal_imm-even : (x : Xlen) (raw : ℕ) → raw < 2 ^ 32 → get_jal_imm x raw % 2 ≡ 0
jal_imm-even x raw h =
    let imm : ℕ =
      raw / 2 ^ 31 * 2 ^ 20
      + raw / 2 ^ 12 % 2 ^ 8 * 2 ^ 12
      + raw / 2 ^ 20 % 2 * 2 ^ 11
      + raw / 2 ^ 21 % 2 ^ 10 * 2 in
    ap (λ (w : ℕ). get_jal_imm x w % 2) (jal_word raw h)
    ∙ ap (λ (w : ℕ). w % 2)
        (get_jal_imm-j_type x imm (raw / 2 ^ 7 % 2 ^ 5) (raw % 2 ^ 7) (omega arith) (omega arith)
          (omega arith) (omega arith))
    ∙ even21 x imm (omega arith)

even_sum : (x : Xlen) (a b : ℕ) → a % 2 ≡ 0 → b % 2 ≡ 0 → wrap x (a + b) % 2 ≡ 0
even_sum rv32 a b h k = omega arith
even_sum rv64 a b h k = omega arith

even_mask : (x : Xlen) (a : ℕ) → a < 2 ^ bits x → bit_and a (bit_not (bits x) 1) % 2 ≡ 0
even_mask rv32 a h = omega (arith, bit_and_field 1 31 a)
even_mask rv64 a h = omega (arith, bit_and_field 1 63 a)

-- A command, and then an outcome with the given next pc.
Allows-outcome :
    {A : Type 0} (n : ℕ) (r : Option (A × Machine)) (f : A → Outcome)
    → ((a : A) → (f a).next_pc ≡ n)
    → Allows (λ out _. out.next_pc ≡ n) (and_then r (λ a. pure (f a)))
Allows-outcome n none f h = tt
Allows-outcome n (some (a, t)) f h = h a

Allows-commit :
    (n : ℕ) (r : Option (Outcome × Machine))
    → n % 2 ≡ 0
    → Allows (λ out _. out.next_pc ≡ n) r
    → Allows
        (λ _ t. t.cpu.pc % 2 ≡ 0)
        (and_then r (λ out. (do cycle out.instr; commit out.next_pc; pure out.exec_continue)))
unfolding cycle commit
Allows-commit n none even h = tt
Allows-commit n (some (out, t)) even h = rw h even

Ensures-even :
    (s : Machine) (rd v n : ℕ) (r : Option (Bool × Machine))
    → n % 2 ≡ 0
    → Ensures (Retires s rd v n) r
    → Allows (λ _ t. t.cpu.pc % 2 ≡ 0) r
Ensures-even s rd v n none even h = tt
Ensures-even s rd v n (some (b, t)) even h = rw h.next_pc even

if-even : (b : Bool) (m n : ℕ) → m % 2 ≡ 0 → n % 2 ≡ 0 → (if b then m else n) % 2 ≡ 0
if-even true m n h k = h
if-even false m n h k = k

module _ (cfg : Config) (raw : ℕ) (h : raw < 2 ^ 32) (s : Machine) where
  -- The cases that leave next_pc as it is.
  execute-keeps :
      (n : ℕ) (op : Opcode)
      → op ≢ Opcode.branch
      → op ≢ Opcode.jal
      → op ≢ Opcode.jalr
      → Allows (λ out _. out.next_pc ≡ n) (execute cfg raw n op s)
  unfolding execute print exec_fence exec_unknown
  execute-keeps n Opcode.rtype b j r = Allows-outcome n (exec_rtype cfg raw s) _ (λ _. refl)
  execute-keeps n Opcode.imm b j r = Allows-outcome n (exec_imm cfg raw s) _ (λ _. refl)
  execute-keeps n Opcode.rtypew b j r = Allows-outcome n (exec_rtypew cfg raw s) _ (λ _. refl)
  execute-keeps n Opcode.immw b j r = Allows-outcome n (exec_immw cfg raw s) _ (λ _. refl)
  execute-keeps n Opcode.load b j r = Allows-outcome n (exec_load cfg raw s) _ (λ _. refl)
  execute-keeps n Opcode.store b j r = Allows-outcome n (exec_store cfg raw s) _ (λ _. refl)
  execute-keeps n Opcode.branch b j r = absurd (b refl)
  execute-keeps n Opcode.fence b j r = refl
  execute-keeps n Opcode.auipc b j r = Allows-outcome n (exec_auipc cfg raw s) _ (λ _. refl)
  execute-keeps n Opcode.lui b j r = Allows-outcome n (exec_lui cfg raw s) _ (λ _. refl)
  execute-keeps n Opcode.jal b j r = absurd (j refl)
  execute-keeps n Opcode.jalr b j r = absurd (r refl)
  execute-keeps n Opcode.sys b j r =
      Allows-outcome n (exec_sys cfg raw s) (λ (i, c). outcome i n c) (λ _. refl)
  execute-keeps n Opcode.unknown b j r = refl

  sequential :
      (op : Opcode)
      → opcode_of cfg.xlen (get_opcode raw) ≡ op
      → op ≢ Opcode.branch
      → op ≢ Opcode.jal
      → op ≢ Opcode.jalr
      → s.cpu.pc % 2 ≡ 0
      → Allows (λ _ t. t.cpu.pc % 2 ≡ 0) (process_instr cfg raw s)
  unfolding process_instr get_pc
  sequential op e b j r even = rw e (
      Allows-commit (wrap cfg.xlen (s.cpu.pc + 4))
        (execute cfg raw (wrap cfg.xlen (s.cpu.pc + 4)) op s)
        (even_sum cfg.xlen s.cpu.pc 4 even refl)
        (execute-keeps (wrap cfg.xlen (s.cpu.pc + 4)) op b j r))

  pub process_instr-even :
      s.cpu.pc % 2 ≡ 0 → Allows (λ _ t. t.cpu.pc % 2 ≡ 0) (process_instr cfg raw s)
  process_instr-even even = by_opcode (opcode_of cfg.xlen (get_opcode raw)) refl
    where
      by_opcode :
          (op : Opcode)
          → opcode_of cfg.xlen (get_opcode raw) ≡ op
          → Allows (λ _ t. t.cpu.pc % 2 ≡ 0) (process_instr cfg raw s)
      by_opcode Opcode.branch e =
          Ensures-even s 0 0 _ (process_instr cfg raw s)
            (if-even
              (branches cfg.xlen (branch_of (get_funct3 raw)) (s.cpu.regfile (get_rs1 raw))
                (s.cpu.regfile (get_rs2 raw)))
              _ _
              (even_sum cfg.xlen s.cpu.pc (get_branch_imm cfg.xlen raw) even
                (branch_imm-even cfg.xlen raw h))
              (even_sum cfg.xlen s.cpu.pc 4 even refl))
            (branch-Retires cfg raw s e)
      by_opcode Opcode.jal e =
          Ensures-even s _ _ _ (process_instr cfg raw s)
            (even_sum cfg.xlen s.cpu.pc (get_jal_imm cfg.xlen raw) even
              (jal_imm-even cfg.xlen raw h))
            (jal-Retires cfg raw s e)
      by_opcode Opcode.jalr e =
          Ensures-even s _ _ _ (process_instr cfg raw s) (even_mask cfg.xlen _ (wrap-lt cfg.xlen _))
            (jalr-Retires cfg raw s e)
      by_opcode Opcode.rtype e = sequential Opcode.rtype e (λ p. cc) (λ p. cc) (λ p. cc) even
      by_opcode Opcode.imm e = sequential Opcode.imm e (λ p. cc) (λ p. cc) (λ p. cc) even
      by_opcode Opcode.rtypew e = sequential Opcode.rtypew e (λ p. cc) (λ p. cc) (λ p. cc) even
      by_opcode Opcode.immw e = sequential Opcode.immw e (λ p. cc) (λ p. cc) (λ p. cc) even
      by_opcode Opcode.load e = sequential Opcode.load e (λ p. cc) (λ p. cc) (λ p. cc) even
      by_opcode Opcode.store e = sequential Opcode.store e (λ p. cc) (λ p. cc) (λ p. cc) even
      by_opcode Opcode.fence e = sequential Opcode.fence e (λ p. cc) (λ p. cc) (λ p. cc) even
      by_opcode Opcode.auipc e = sequential Opcode.auipc e (λ p. cc) (λ p. cc) (λ p. cc) even
      by_opcode Opcode.lui e = sequential Opcode.lui e (λ p. cc) (λ p. cc) (λ p. cc) even
      by_opcode Opcode.sys e = sequential Opcode.sys e (λ p. cc) (λ p. cc) (λ p. cc) even
      by_opcode Opcode.unknown e = sequential Opcode.unknown e (λ p. cc) (λ p. cc) (λ p. cc) even
