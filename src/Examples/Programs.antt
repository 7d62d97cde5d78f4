-- ===== src/Examples/Programs.antt =====
-- The theorems on memory accesses, main, librv and the instruction set at concrete arguments.
use mathlib.Core.Path.{subst}
use rvem.Common.{
  String, ltb, List, ℕ, ◌-◌, ◌*◌, ◌/◌, ◌^◌, ◌≡◌, refl, arith, ◌∙◌, true, false, some, [], ◌∷◌, ◌==◌,
  if◌then◌else◌, ◌⊎◌, inl, inr,
}
use rvem.Common.Int.{pos, negsuc, ◌*ℤ◌, shr_ℤ}
use rvem.Arch.{rom_size, rv32, rv64, gnu}
use rvem.Riscv.{AluOp, MemOp, SysOp, BranchOp}
use rvem.Mul.{rv_mulh, rv_mulhsu, rv_mulhu}
use rvem.Mul.Intrinsics.{rv_mulh_msvc, rv_mulhsu_msvc, rv_mulhu_msvc, rv_mulh_msvc-rv_mulh}
use rvem.Machine.{Machine, boot, loaded, unmapped_read, putchar, exited}
use rvem.Machine.Safe.{IsValid, Ensures}
use rvem.Bus.{in_ram, in_rom}
use rvem.Alu.WordSpec.{word_result}
use rvem.Core.{process_instr}
use rvem.Core.Retire.{Retires}
use rvem.Core.Memory.{load_word, Ignores, process_instr-load, process_instr-load_unmapped}
use rvem.Core.Stores.{store_word, Stores, process_instr-store}
use rvem.Core.CsrWords.{csr_word}
use rvem.Core.Counters.{ReadsCsr, process_instr-csr}
use rvem.Core.System.{process_instr-ecall-ebreak}
use rvem.Core.Words.{opw_word, process_instr-opw}
use rvem.Host.{byte_or, fetch, Files, main, run}
use rvem.Host.Loop.{Ends}
use rvem.Host.Main.{AreBytes, MainReturns, main-Returns}
use rvem.Host.Reach.{Round, round, here, next, Invariant, Reach-Invariant}
use rvem.Isa.Cycles.{Times}
use rvem.Isa.Clocked.{Clocked}
use rvem.Isa.Total.{Program}
use rvem.Isa.Main.{Finishes, main-Finishes}
use rvem.Isa.Clock.{process_instr-Times}
use rvem.Isa.Visible.{visible, process_instr-visible}
use rvem.Isa.{branch, alu_imm, ecall, store, encode}
use rvem.Isa.Hart.{Hart, hart, Steps}
use rvem.Isa.Refinement.{process_instr-Steps}
use rvem.Isa.Program.{Codes, code, Meets, fetch-word_at, run-Meets}
use rvem.Librv.{putchar_, query_performance_counter, query_instruction_counter}
use rvem.Librv.Putchar.{putchar_-prints}
use rvem.Librv.Attempt.{AreRegisters}
use rvem.Librv.Counters.{Answers, query_counter-Answers}
use rvem.Examples.{cfg32, cfg64, image, started, boot-IsValid, started-IsValid}

-- x5 points into the RAM.
abbrev pointing : Machine
pointing = record started {
  cpu = record (started.cpu) {
    regfile = λ i. if i == 5 then 0x20000010 else if i == 6 then 0x1FF80 else 0;
  };
}

process_instr-store_example :
    Ensures
      (Stores rv32 pointing MemOp.h 0xE 0x1FF80 12)
      (process_instr cfg32 (store_word MemOp.h 6 5 0xFFE) pointing)
unfolding in_ram
process_instr-store_example =
    process_instr-store cfg32 pointing MemOp.h 5 0xFFE (omega arith) (omega arith) 6 (omega arith)
      tt refl

process_instr-load_example :
    Ensures
      (Retires started 7 (2 ^ 32 - 96) 12)
      (process_instr cfg32 (load_word MemOp.b 7 0 2) started)
unfolding in_ram in_rom
process_instr-load_example =
    process_instr-load cfg32 started MemOp.b 0 2 (omega arith) (omega arith) 7 (omega arith) tt
      started-IsValid refl

process_instr-load_unmapped_example :
    Ensures
      (Ignores started (unmapped_read (2 ^ 32 - 6)) 12)
      (process_instr cfg32 (load_word MemOp.w 7 5 0) started)
unfolding in_ram in_rom
process_instr-load_unmapped_example =
    process_instr-load_unmapped cfg32 started MemOp.w 5 0 (omega arith) (omega arith) 7
      (omega arith) refl

process_instr-opw_example : Ensures (Retires started 7 (word_result AluOp.sra (2 ^ 32 - 6) 4) 12) (
    process_instr
      (record cfg64 { m_ext = false; compiler = gnu })
      (opw_word AluOp.sra 7 5 6)
      started)
process_instr-opw_example =
    process_instr-opw false gnu AluOp.sra 7 5 6 started tt (omega arith) (omega arith) (omega arith)

-- x6 is the destination of the load before.
abbrev loaded_x6 : Machine
loaded_x6 = record started {
  perf_model = record {
    prev_rd = 6;
    prev2_rd = 0;
    prev_mem_load = true;
    prev2_mem_load = false;
    prev_reg_write = true;
  };
}

process_instr-csr_example :
    Ensures
      (ReadsCsr loaded_x6 7 5 12 5)
      (process_instr cfg32 (csr_word SysOp.csr_rs 0xC00 7 6) loaded_x6)
process_instr-csr_example =
    process_instr-csr cfg32 SysOp.csr_rs 0xC00 7 6 loaded_x6 tt (omega arith) (omega arith)
      (omega arith)

process_instr-Steps_example :
    Ensures
      (λ c t. Steps rv32 (store MemOp.w 6 5 0) (hart started) c (hart t))
      (process_instr cfg32 (encode (store MemOp.w 6 5 0)) started)
process_instr-Steps_example =
    process_instr-Steps cfg32 (store MemOp.w 6 5 0) started
      (tt, omega arith, omega arith, omega arith) started-IsValid

loaded_x6-IsValid : IsValid rv32 loaded_x6
loaded_x6-IsValid = record {
  rom_bytes = λ i. ground arith;
  ram_bytes = λ i. omega arith;
  registers = λ i. ground arith;
  pc_range = omega arith;
  cycle_range = omega arith;
  instret_range = omega arith;
}

-- It waits twice for x6, and jumps.
process_instr-Times_example :
    Ensures
      (λ _. Times rv32 (branch BranchOp.ne 6 0 16) loaded_x6)
      (process_instr cfg32 (encode (branch BranchOp.ne 6 0 16)) loaded_x6)
process_instr-Times_example =
    process_instr-Times cfg32 (branch BranchOp.ne 6 0 16) loaded_x6
      (tt, omega arith, omega arith, omega arith, refl) loaded_x6-IsValid

process_instr-visible_example :
    (visible (fetch cfg32 started) ≡ visible (fetch cfg32 (record loaded_x6 { mcycle = 100 })))
    × (visible (process_instr cfg32 0x02628533 started)
        ≡ visible (process_instr cfg32 0x02628533 (record loaded_x6 { mcycle = 100 })))
process_instr-visible_example =
    process_instr-visible cfg32 0x02628533 started (record loaded_x6 { mcycle = 100 }) refl refl

rv_mulh_msvc-rv_mulh_example :
    (rv_mulh_msvc (λ p q. shr_ℤ (p *ℤ q) 64) (λ p q. p * q / 2 ^ 64) (negsuc 4) (pos 7)
      ≡ rv_mulh gnu rv64 (negsuc 4) (pos 7))
    × (rv_mulhsu_msvc (λ p q. shr_ℤ (p *ℤ q) 64) (λ p q. p * q / 2 ^ 64) (negsuc 4) (2 ^ 63)
        ≡ rv_mulhsu gnu rv64 (negsuc 4) (2 ^ 63))
    × (rv_mulhu_msvc (λ p q. shr_ℤ (p *ℤ q) 64) (λ p q. p * q / 2 ^ 64) 9 (2 ^ 63)
        ≡ rv_mulhu gnu rv64 9 (2 ^ 63))
rv_mulh_msvc-rv_mulh_example =
    rv_mulh_msvc-rv_mulh (λ p q. shr_ℤ (p *ℤ q) 64) (λ p q. p * q / 2 ^ 64) (negsuc 4) (pos 7) 9
      (2 ^ 63) (λ p q h k. refl) (λ p q h k. refl) (omega arith) (omega arith) (omega arith)
      (omega arith)

-- The program of image, in a file.
abbrev image_file : List ℕ
image_file = 0x13 ∷ 0x05 ∷ 0xA0 ∷ 0 ∷ 0x73 ∷ 0 ∷ 0 ∷ 0 ∷ []

image_file-AreBytes : AreBytes image_file
image_file-AreBytes = (
  omega arith,
  (
    omega arith,
    (omega arith, (omega arith, (omega arith, (omega arith, (omega arith, (omega arith, tt)))))),
  ),
)

abbrev files : Files
files name = some image_file

-- Whatever the name, the file is that of image.
files-AreBytes : (name : String) (bytes : List ℕ) → files name ≡ some bytes → AreBytes bytes
files-AreBytes name bytes e =
    let same : image_file ≡ bytes = cc in subst AreBytes same image_file-AreBytes

main-Returns_example :
    Ensures
      (MainReturns cfg32 files ("rvem" ∷ "exit.bin" ∷ []))
      (main 1000000001 cfg32 files ("rvem" ∷ "exit.bin" ∷ []) (boot (λ _. 0)))
main-Returns_example =
    main-Returns cfg32 files ("rvem" ∷ "exit.bin" ∷ []) 1000000000 files-AreBytes (omega arith)

putchar_-prints_example :
    Ensures
      (λ continue t.
        (continue ≡ true)
        × (t.output ≡ putchar (2 ^ 32 - 6) ∷ [])
        × (t.cpu.pc ≡ 20)
        × (t.cpu.regfile 6 ≡ 4)
        × (t.cpu.ram ≡ started.cpu.ram))
      (putchar_ cfg32 5 started)
putchar_-prints_example =
    putchar_-prints cfg32 5 6 started (omega arith) (omega arith) (omega arith) (omega arith) refl
      started-IsValid

registers-AreRegisters : AreRegisters 5 6 7
registers-AreRegisters = record {
  hi_range = (omega arith, omega arith);
  lo_range = (omega arith, omega arith);
  hi2_range = (omega arith, omega arith);
  apart = (omega arith, omega arith, omega arith);
}

query_counter-Answers_example :
    Ensures (Answers 8 4 (λ t. t.mcycle)) (query_performance_counter 2 cfg32 5 6 7 started)
    × Ensures (Answers 8 0 (λ t. t.minstret)) (query_instruction_counter 2 cfg32 5 6 7 started)
query_counter-Answers_example =
    query_counter-Answers true gnu 5 6 7 started registers-AreRegisters started-IsValid
      (omega arith) (omega arith)

-- The program of image: P is what holds before each of its two instructions, Q after them.
abbrev Running : Hart → Type 0
Running h =
    (h.rom ≡ image)
    × (h.output ≡ [])
    × (h.regs 0 ≡ 0)
    × ((h.pc ≡ 0) ⊎ ((h.pc ≡ 4) × (h.regs 10 ≡ 10)))

abbrev Exited : Hart → Type 0
Exited h = h.output ≡ exited ∷ []

image-Codes : (h : Hart) → Running h → Codes cfg64 Running Exited h
unfolding in_ram in_rom
image-Codes h (rom, out, zero_register, inl pc) =
    code (alu_imm AluOp.add 10 0 10) (tt, omega arith, omega arith, omega arith) (rw pc refl)
      (rw (pc, rom) refl)
      (λ c h' effect. rw effect.continues (
        effect.same_rom ∙ rom,
        effect.prints ∙ out,
        effect.registers 0,
        inr (effect.next_pc ∙ rw pc refl, effect.registers 10 ∙ rw zero_register refl),
      ))
image-Codes h (rom, out, zero_register, inr (pc, a0)) =
    code ecall tt (rw pc refl) (rw (pc, rom) refl) (λ c h' effect.
      let stops : c ≡ false = rw a0 at effect.continues in
      rw stops (effect.prints ∙ rw (a0, out) refl))

run-Meets_example :
    Ensures
      (λ e t. Ends cfg64 (boot image) e t × Meets Running Exited e t)
      (run 1000000001 cfg64 true (boot image))
run-Meets_example =
    run-Meets cfg64 Running Exited image-Codes 1000000000 (boot image) (boot-IsValid rv64)
      (refl, refl, refl, inl refl) (omega arith)

-- The file of image, with the cycles: mcycle starts at 4, and each of the two instructions takes
-- one.
abbrev RunningAt : Clocked → Type 0
RunningAt c =
    (c.hart.rom ≡ (λ i. if ltb i rom_size then byte_or image_file i 0 else 0))
    × (c.hart.output ≡ loaded 8 ∷ [])
    × (c.hart.regs 0 ≡ 0)
    × ((c.hart.pc ≡ 0) × (c.total ≡ 4) × (c.model.prev_rd ≡ 0)
        ⊎ (c.hart.pc ≡ 4) × (c.total ≡ 5) × (c.hart.regs 10 ≡ 10))

abbrev ExitedAt : Clocked → Type 0
ExitedAt c = (c.hart.output ≡ exited ∷ loaded 8 ∷ []) × (c.total ≡ 6)

image-Program : (c : Clocked) → RunningAt c → Program cfg32 RunningAt ExitedAt c
unfolding in_ram in_rom byte_or
image-Program c (rom, out, zero_register, inl (pc, total, model)) =
    Program.code (alu_imm AluOp.add 10 0 10) (tt, omega arith, omega arith, omega arith)
      (rw pc refl) (rw (pc, rom) refl)
      (λ continue d runs. rw runs.steps.continues (
        runs.steps.same_rom ∙ rom,
        runs.steps.prints ∙ out,
        runs.steps.registers 0,
        inr (
          runs.steps.next_pc ∙ rw pc refl,
          runs.total ∙ rw (pc, total, model) refl,
          runs.steps.registers 10 ∙ rw zero_register refl,
        ),
      ))
image-Program c (rom, out, zero_register, inr (pc, total, a0)) =
    Program.code ecall tt (rw pc refl) (rw (pc, rom) refl) (λ continue d runs.
      let stops : continue ≡ false = rw a0 at runs.steps.continues in
      rw stops (runs.steps.prints ∙ rw (a0, out) refl, runs.total ∙ rw (pc, total) refl))

main-Finishes_example :
    Ensures
      (Finishes cfg32 RunningAt ExitedAt)
      (main 1000000001 cfg32 files ("rvem" ∷ "exit.bin" ∷ []) (boot (λ _. 0)))
main-Finishes_example =
    main-Finishes RunningAt ExitedAt cfg32 files "rvem" "exit.bin" image_file 1000000000
      image-Program refl image_file-AreBytes (omega arith)
      (refl, refl, refl, inl (refl, refl, refl))

-- The second instruction of image.
abbrev at_ecall : Machine
at_ecall = record (boot image) {
  cpu = record { rom = image; ram = λ _. 0; regfile = λ i. if i == 10 then 10 else 0; pc = 4 };
}

at_ecall-IsValid : IsValid rv32 at_ecall
at_ecall-IsValid = record {
  rom_bytes = λ i. ground arith;
  ram_bytes = λ i. omega arith;
  registers = λ i. ground arith;
  pc_range = omega arith;
  cycle_range = omega arith;
  instret_range = omega arith;
}

at_ecall-Invariant : Invariant cfg32 at_ecall at_ecall
at_ecall-Invariant = record {
  valid = at_ecall-IsValid;
  zero_register = refl;
  even_pc = refl;
  same_rom = refl;
  cycles_lead = omega arith;
  cycles_bounded = omega arith;
}

ecall-Round : (t : Machine) × Round cfg32 at_ecall false t
unfolding in_ram in_rom
ecall-Round =
    let (k, fetched) = fetch-word_at cfg32 at_ecall at_ecall-IsValid refl in
    (
      _,
      round 0x73 (record at_ecall { mcycle = k }) (omega arith) fetched (omega arith)
          (process_instr-ecall-ebreak cfg32 (record at_ecall { mcycle = k })).0,
    )

Reach-Invariant_example : Invariant cfg32 at_ecall ecall-Round.0
Reach-Invariant_example = Reach-Invariant cfg32 at_ecall-Invariant (next here ecall-Round.1)
