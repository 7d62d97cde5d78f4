-- ===== src/Core/Words.antt =====
-- OP_RTYPEW, from the encodings to the state after it, and the end of OP_IMMW.
use rvem.Common.{
  ℕ, ◌+◌, ◌*◌, ◌/◌, ◌%◌, ◌^◌, ◌<◌, ◌≡◌, refl, arith, ap, ◌∙◌, Bool, true, false, not, ◌&&◌, some,
  ◌==◌, if◌then◌else◌, bit_or,
}
use rvem.Common.Bits.{bit_or_fields}
use rvem.Common.Word.{sign_extend}
use rvem.Arch.{rv32, rv64, Config, Compiler}
use rvem.Riscv.{
  Opcode, opcode_of, get_opcode, AluOp, MulOp, alu_of, mul_of, get_rs1, get_rs2, get_rd, get_funct3,
  check_funct7_bit0, check_funct7_bit5, get_simm12, alu_funct7_bit5,
}
use rvem.Riscv.Encode.{r_type}
use rvem.Riscv.Fields.{get_rs1-lt, get_rs2-lt, get_rd-lt}
use rvem.Riscv.Decode.{r_type-RFields}
use rvem.Machine.{Machine, Instr, wrap}
use rvem.Machine.Safe.{Ensures}
use rvem.Machine.Run.{get_reg-get, set_reg-written}
use rvem.Perf.Laws.{hazard-mcycle}
use rvem.Alu.{alu_word, alu_word_imm, mul_div_word}
use rvem.Alu.Spec.{IsOp}
use rvem.Alu.Product.{IsMulDiv, IsMulOp}
use rvem.Alu.WordSpec.{IsWordOp, word_result, alu_word-result, IsWordMulOp, mul_div_word-IsMulDiv}
use rvem.Exec.{exec_rtypew, exec_immw, set_result, alu_op, instr_init}
use rvem.Core.{outcome, execute, process_instr}
use rvem.Core.Retire.{Retires, retire}
use rvem.Core.Registers.{bit5_of, funct3_of, bit5_of-lt, funct3_of-lt, alu_of-code, and-false}
use rvem.Core.Products.{mul_funct3, mul_of-code, mul_funct3-lt}

abbrev pub build64 : Bool → Compiler → Config
build64 m c = record { xlen = rv64; m_ext = m; compiler = c }

-- The cases of the switch, for any word of their opcode.
module _ (m : Bool) (c : Compiler) (raw : ℕ) (s : Machine) where
  rtypew_instr : Instr
  rtypew_instr = record instr_init {
    rs1 = get_rs1 raw;
    rs2 = get_rs2 raw;
    rd = get_rd raw;
    is_reg_write = true;
  }

  immw_instr : Instr
  immw_instr = record instr_init {
    rs1 = get_rs1 raw;
    rd = get_rd raw;
    is_reg_write = true;
    imms = get_simm12 rv64 raw;
  }

  rtypew-Retires :
      (v : ℕ)
      → opcode_of rv64 (get_opcode raw) ≡ Opcode.rtypew
      → (if m && check_funct7_bit0 raw
          then mul_div_word rv64
              (mul_of (get_funct3 raw))
              (s.cpu.regfile (get_rs1 raw))
              (s.cpu.regfile (get_rs2 raw))
          else alu_word rv64
              (alu_op raw)
              (s.cpu.regfile (get_rs1 raw))
              (s.cpu.regfile (get_rs2 raw)))
        ≡ some v
      → Ensures
          (Retires s (get_rd raw) v (wrap rv64 (s.cpu.pc + 4)))
          (process_instr (build64 m c) raw s)
  unfolding execute exec_rtypew set_result rtypew_instr
  rtypew-Retires v e gives =
      let (k, stalls) = hazard-mcycle rtypew_instr s in
      retire (build64 m c) raw s Opcode.rtypew
        (outcome rtypew_instr (wrap rv64 (s.cpu.pc + 4)) true) k (get_rd raw) v e refl
        (rw (
          stalls,
          get_reg-get (get_rs1 raw) (record s { mcycle = k }) (get_rs1-lt raw),
          get_reg-get (get_rs2 raw) (record s { mcycle = k }) (get_rs2-lt raw),
          gives,
          set_reg-written (get_rd raw) v (record s { mcycle = k }) (get_rd-lt raw),
        ))

  pub immw-Retires :
      (v : ℕ)
      → opcode_of rv64 (get_opcode raw) ≡ Opcode.immw
      → alu_word_imm rv64
          (check_funct7_bit5 raw)
          (alu_of (get_funct3 raw))
          (s.cpu.regfile (get_rs1 raw))
          (get_simm12 rv64 raw)
        ≡ some v
      → Ensures
          (Retires s (get_rd raw) v (wrap rv64 (s.cpu.pc + 4)))
          (process_instr (build64 m c) raw s)
  unfolding execute exec_immw set_result immw_instr
  immw-Retires v e gives =
      let (k, stalls) = hazard-mcycle immw_instr s in
      retire (build64 m c) raw s Opcode.immw (outcome immw_instr (wrap rv64 (s.cpu.pc + 4)) true) k
        (get_rd raw) v e refl
        (rw (
          stalls,
          get_reg-get (get_rs1 raw) (record s { mcycle = k }) (get_rs1-lt raw),
          gives,
          set_reg-written (get_rd raw) v (record s { mcycle = k }) (get_rd-lt raw),
        ))

-- The word of ADDW, SUBW, SLLW, SRLW or SRAW.
abbrev pub opw_word : (op : AluOp) (rd rs1 rs2 : ℕ) → ℕ
opw_word op rd rs1 rs2 = r_type (bit5_of op * 32) rs2 rs1 (funct3_of op) rd 0x3B

abbrev pub mulw_word : (op : MulOp) (rd rs1 rs2 : ℕ) → ℕ
mulw_word op rd rs1 rs2 = r_type 1 rs2 rs1 (mul_funct3 op) rd 0x3B

word-IsOp : (op : AluOp) → IsWordOp op → IsOp op
word-IsOp AluOp.add i = tt
word-IsOp AluOp.sub i = tt
word-IsOp AluOp.sll i = tt
word-IsOp AluOp.srl i = tt
word-IsOp AluOp.sra i = tt
word-IsOp AluOp.slt i = absurd i
word-IsOp AluOp.sltu i = absurd i
word-IsOp AluOp.xor i = absurd i
word-IsOp AluOp.or i = absurd i
word-IsOp AluOp.and i = absurd i
word-IsOp AluOp.none i = absurd i

word_mul_op : (op : MulOp) → IsWordMulOp op → IsMulOp op
word_mul_op MulOp.mul i = tt
word_mul_op MulOp.div i = tt
word_mul_op MulOp.divu i = tt
word_mul_op MulOp.rem i = tt
word_mul_op MulOp.remu i = tt
word_mul_op _ i = absurd i

-- The word of ADDW, SUBW, SLLW, SRLW or SRAW on RV64 leaves the operation of RV32 on the low words
-- of rs1 and rs2, sign-extended, in rd, changes no other register and no memory, prints nothing,
-- and goes on to the next instruction; x0 is 0 after it. It asks for rd, rs1, rs2 < 32.
pub process_instr-opw :
    (m : Bool) (c : Compiler) (op : AluOp) (rd rs1 rs2 : ℕ) (s : Machine)
    → IsWordOp op
    → rd < 32
    → rs1 < 32
    → rs2 < 32
    → Ensures
        (Retires s rd
          (word_result op (s.cpu.regfile rs1) (s.cpu.regfile rs2))
          (wrap rv64 (s.cpu.pc + 4)))
        (process_instr (build64 m c) (opw_word op rd rs1 rs2) s)
unfolding opcode_of
process_instr-opw m c op rd rs1 rs2 s i hd h1 h2 =
    let raw : ℕ = opw_word op rd rs1 rs2 in
    let f =
      r_type-RFields (bit5_of op * 32) rs2 rs1 (funct3_of op) rd 0x3B (omega (arith, bit5_of-lt op))
        h2 h1 (funct3_of-lt op) hd (omega arith) in
    let not_mul : check_funct7_bit0 raw ≡ false = f.bit0_is ∙ even_test op in
    let decoded : alu_op raw ≡ op =
      ap alu_of (code op raw f.bit5_is f.funct3_is) ∙ alu_of-code op (word-IsOp op i) in
    rw f.rd_is at (
      rtypew-Retires m c raw s (word_result op (s.cpu.regfile rs1) (s.cpu.regfile rs2))
        (ap (opcode_of rv64) f.opcode_is)
        (rw (not_mul, and-false m, decoded, f.rs1_is, f.rs2_is)
          (alu_word-result op (s.cpu.regfile rs1) (s.cpu.regfile rs2) i)))
  where
    even_test : (o : AluOp) → not (bit5_of o * 32 % 2 == 0) ≡ false
    even_test o = ground (arith, bit5_of-lt o)

    code :
        (o : AluOp) (raw : ℕ)
        → alu_funct7_bit5 raw ≡ bit5_of o * 32 / 2 ^ 5 % 2 * 8
        → get_funct3 raw ≡ funct3_of o
        → bit_or (alu_funct7_bit5 raw) (get_funct3 raw) ≡ bit5_of o * 8 + funct3_of o
    code o raw high low =
        rw (high, low)
          (ap (λ (n : ℕ). bit_or n (funct3_of o)) (omega (arith, bit5_of-lt o))
            ∙ bit_or_fields 3 (bit5_of o) (funct3_of o) (funct3_of-lt o))

-- With the M extension the word of MULW, DIVW, DIVUW, REMW or REMUW on RV64 leaves in rd the
-- sign-extended word that the manual allows for the operation of RV32 on the low words of rs1 and
-- rs2, changes no other register and no memory, prints nothing, and goes on to the next
-- instruction. It asks for rd, rs1, rs2 < 32.
pub process_instr-mulw :
    (c : Compiler) (op : MulOp) (rd rs1 rs2 : ℕ) (s : Machine)
    → IsWordMulOp op
    → rd < 32
    → rs1 < 32
    → rs2 < 32
    → (v : ℕ) × IsMulDiv rv32 op (s.cpu.regfile rs1 % 2 ^ 32) (s.cpu.regfile rs2 % 2 ^ 32) v
      × Ensures
          (Retires s rd (sign_extend 32 64 v) (wrap rv64 (s.cpu.pc + 4)))
          (process_instr (build64 true c) (mulw_word op rd rs1 rs2) s)
unfolding opcode_of
process_instr-mulw c op rd rs1 rs2 s i hd h1 h2 =
    let raw : ℕ = mulw_word op rd rs1 rs2 in
    let f =
      r_type-RFields 1 rs2 rs1 (mul_funct3 op) rd 0x3B (omega arith) h2 h1 (mul_funct3-lt op) hd
        (omega arith) in
    let (v, gives, is) = mul_div_word-IsMulDiv op (s.cpu.regfile rs1) (s.cpu.regfile rs2) i in
    (
      v,
      is,
      rw f.rd_is at (
          rtypew-Retires true c raw s (sign_extend 32 64 v) (ap (opcode_of rv64) f.opcode_is) (
            rw (f.bit0_is, f.funct3_is, mul_of-code op (word_mul_op op i), f.rs1_is, f.rs2_is)
              gives)),
    )
