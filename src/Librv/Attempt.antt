-- ===== src/Librv/Attempt.antt =====
-- One round of a counter query on RV32: three reads of a CSR, and the branch back.
use rvem.Common.{
  ℕ, ◌+◌, ◌-◌, ◌/◌, ◌%◌, ◌^◌, ◌<◌, ◌≤◌, ◌≡◌, ◌≢◌, refl, arith, sym, ap, ◌∙◌, Bool, true, false, not,
  some, [], ◌∷◌, ◌==◌, if◌then◌else◌, ◌⊎◌, inl, inr, Bool-cases,
}
use rvem.Common.Word.{sign_extend}
use rvem.Arch.{rv32, Config, Compiler}
use rvem.Riscv.{BranchOp}
use rvem.Riscv.Encode.{b_type}
use rvem.Machine.{Machine, wrap, update}
use rvem.Machine.Safe.{Ensures-both, IsValid, Ensures, Ensures-and_then}
use rvem.Machine.Run.{written}
use rvem.Csr.{csr_of, csr_value}
use rvem.Core.{Outcome, outcome, process_instr}
use rvem.Core.Safety.{Completes, process_instr-Completes}
use rvem.Core.Retire.{ended, Retires}
use rvem.Core.System.{csrr_word, sys_instr, process_instr-csrr}
use rvem.Core.Jumps.{process_instr-branch}
use rvem.Librv.{words}

abbrev pub build32 : Bool → Compiler → Config
build32 m c = record { xlen = rv32; m_ext = m; compiler = c }

-- A counter with the two CSRs of its halves: a CSR instruction adds one to it.
pub record IsCounter (csrh csr : ℕ) (count : Machine → ℕ) : Type 0 where
  pub upper : (s : Machine) → csr_value rv32 (csr_of rv32 csrh) s ≡ count s / 2 ^ 32 % 2 ^ 32
  pub lower : (s : Machine) → csr_value rv32 (csr_of rv32 csr) s ≡ count s % 2 ^ 32
  pub reads :
      (out : Outcome) (rd v : ℕ) (s : Machine)
      → count (ended out (written s s.mcycle rd v)) ≡ (count s + 1) % 2 ^ 64
  pub steps :
      (cfg : Config) (s t : Machine)
      → Completes cfg s t
      → (j : ℕ) × (1 ≤ j) × (j ≤ 5) × (count t ≡ (count s + j) % 2 ^ 64)
  pub range : (cfg : Config) (s : Machine) → IsValid cfg.xlen s → count s < 2 ^ 64

-- What a round leaves, from a state with the counter at c.
pub record Attempted (pc c hi lo : ℕ) (count : Machine → ℕ) (t : Machine) : Type 0 where
  pub valid : IsValid rv32 t
  pub upper_read : t.cpu.regfile hi ≡ c / 2 ^ 32 % 2 ^ 32
  pub lower_read : t.cpu.regfile lo ≡ (c + 1) % 2 ^ 32
  pub least : c + 4 ≤ count t
  pub most : count t ≤ c + 8
  pub goes_on :
      ((c / 2 ^ 32 ≡ (c + 2) / 2 ^ 32) × (t.cpu.pc ≡ wrap rv32 (pc + 16)))
      ⊎ ((c / 2 ^ 32 ≢ (c + 2) / 2 ^ 32) × (t.cpu.pc ≡ pc))

-- The registers that the compiler picks for the three outputs: different ones, and not x0.
pub record AreRegisters (hi lo hi2 : ℕ) : Type 0 where
  pub hi_range : (0 < hi) × (hi < 32)
  pub lo_range : (0 < lo) × (lo < 32)
  pub hi2_range : (0 < hi2) × (hi2 < 32)
  pub apart : (hi ≢ lo) × (hi ≢ hi2) × (lo ≢ hi2)

-- The offset of the branch back, over three instructions.
back : sign_extend 13 32 (2 ^ 13 - 12) ≡ 2 ^ 32 - 12
back = refl

-- The arithmetic of a round, from the counter c and the pc p.
sums :
    (c c₁ c₂ c₃ j c₄ : ℕ)
    → c + 8 < 2 ^ 64
    → c₁ ≡ (c + 1) % 2 ^ 64
    → c₂ ≡ (c₁ + 1) % 2 ^ 64
    → c₃ ≡ (c₂ + 1) % 2 ^ 64
    → 1 ≤ j
    → j ≤ 5
    → c₄ ≡ (c₃ + j) % 2 ^ 64
    → (c₁ ≡ c + 1) × (c₂ ≡ c + 2) × (c + 4 ≤ c₄) × (c₄ ≤ c + 8)
sums c c₁ c₂ c₃ j c₄ room e₁ e₂ e₃ low high e₄ = omega arith

goes_back :
    (p p₃ : ℕ)
    → p < 2 ^ 32
    → p₃ ≡ wrap rv32 (wrap rv32 (wrap rv32 (p + 4) + 4) + 4)
    → (wrap rv32 (p₃ + (2 ^ 32 - 12)) ≡ p) × (wrap rv32 (p₃ + 4) ≡ wrap rv32 (p + 16))
goes_back p p₃ h e = omega arith

-- Equality of the upper halves, as the branch sees it.
halves :
    (a b : ℕ)
    → a < 2 ^ 64
    → b < 2 ^ 64
    → a / 2 ^ 32 % 2 ^ 32 ≡ b / 2 ^ 32 % 2 ^ 32
    → a / 2 ^ 32 ≡ b / 2 ^ 32
halves a b h k e = omega arith

module _ (m : Bool) (k : Compiler) (csrh csr : ℕ) (count : Machine → ℕ)
    (is : IsCounter csrh csr count) (hc : csrh < 2 ^ 12) (lc : csr < 2 ^ 12) where
  -- The state after a read.
  after : ℕ → ℕ → Machine → Machine
  after rd c s =
      ended (outcome (sys_instr 0 rd c) (wrap rv32 (s.cpu.pc + 4)) true)
        (written s s.mcycle rd (csr_value rv32 (csr_of rv32 c) s))

  after_runs :
      (rd c : ℕ) (s : Machine)
      → rd < 32
      → c < 2 ^ 12
      → process_instr (build32 m k) (csrr_word c rd) s ≡ some (true, after rd c s)
  unfolding after
  after_runs rd c s hd h = process_instr-csrr (build32 m k) s c rd h hd

  after-IsValid :
      (rd c : ℕ) (s : Machine) → rd < 32 → c < 2 ^ 12 → IsValid rv32 s → IsValid rv32 (after rd c s)
  after-IsValid rd c s hd h v =
      let done =
        rw (after_runs rd c s hd h) at
          (process_instr-Completes (build32 m k) (csrr_word c rd) s v) in
      done.valid

  after-count : (rd c : ℕ) (s : Machine) → count (after rd c s) ≡ (count s + 1) % 2 ^ 64
  unfolding after
  after-count rd c s =
      is.reads (outcome (sys_instr 0 rd c) (wrap rv32 (s.cpu.pc + 4)) true) rd
        (csr_value rv32 (csr_of rv32 c) s) s

  after-pc : (rd c : ℕ) (s : Machine) → (after rd c s).cpu.pc ≡ wrap rv32 (s.cpu.pc + 4)
  unfolding after
  after-pc rd c s = refl

  after-read :
      (rd c : ℕ) (s : Machine)
      → 0 < rd
      → (after rd c s).cpu.regfile rd ≡ csr_value rv32 (csr_of rv32 c) s
  unfolding after update
  after-read rd c s h = ground arith

  after-kept :
      (rd c i : ℕ) (s : Machine) → 0 < i → i ≢ rd → (after rd c s).cpu.regfile i ≡ s.cpu.regfile i
  unfolding after update
  after-kept rd c i s h ne = ground arith

  module _ (hi lo hi2 : ℕ) (s : Machine) (r : AreRegisters hi lo hi2) (v : IsValid rv32 s)
      (room : count s + 8 < 2 ^ 64) where
    -- The state after the three reads.
    third : Machine
    third = after hi2 csrh (after lo csr (after hi csrh s))

    hi_is : third.cpu.regfile hi ≡ count s / 2 ^ 32 % 2 ^ 32
    unfolding third
    hi_is =
        after-kept hi2 csrh hi (after lo csr (after hi csrh s)) (r.hi_range.0) (r.apart.1)
        ∙ after-kept lo csr hi (after hi csrh s) (r.hi_range.0) (r.apart.0)
        ∙ after-read hi csrh s (r.hi_range.0)
        ∙ is.upper s

    lo_is : third.cpu.regfile lo ≡ (count s + 1) % 2 ^ 32
    unfolding third
    lo_is =
        after-kept hi2 csrh lo (after lo csr (after hi csrh s)) (r.lo_range.0) (r.apart.2)
        ∙ after-read lo csr (after hi csrh s) (r.lo_range.0)
        ∙ is.lower (after hi csrh s)
        ∙ omega (arith, after-count hi csrh s)

    hi2_is : third.cpu.regfile hi2 ≡ (count s + 2) / 2 ^ 32 % 2 ^ 32
    unfolding third
    hi2_is =
        after-read hi2 csrh (after lo csr (after hi csrh s)) (r.hi2_range.0)
        ∙ is.upper (after lo csr (after hi csrh s))
        ∙ ap (λ (n : ℕ). n / 2 ^ 32 % 2 ^ 32)
            (omega (arith, after-count hi csrh s, after-count lo csr (after hi csrh s)))

    pc_is :
        (wrap rv32 (third.cpu.pc + (2 ^ 32 - 12)) ≡ s.cpu.pc)
        × (wrap rv32 (third.cpu.pc + 4) ≡ wrap rv32 (s.cpu.pc + 16))
    unfolding third
    pc_is = goes_back s.cpu.pc third.cpu.pc v.pc_range (
        after-pc hi2 csrh (after lo csr (after hi csrh s))
        ∙ ap (λ (p : ℕ). wrap rv32 (p + 4))
            (after-pc lo csr (after hi csrh s)
              ∙ ap (λ (p : ℕ). wrap rv32 (p + 4)) (after-pc hi csrh s)))

    third-sums :
        (t : Machine)
        → Completes (build32 m k) third t
        → (count s + 4 ≤ count t) × (count t ≤ count s + 8)
    unfolding third
    third-sums t done =
        let (j, low, high, e) = is.steps (build32 m k) third t done in
        let (_, _, least, most) =
          sums (count s) (count (after hi csrh s)) (count (after lo csr (after hi csrh s)))
            (count third) j (count t) room (after-count hi csrh s)
            (after-count lo csr (after hi csrh s))
            (after-count hi2 csrh (after lo csr (after hi csrh s))) low high e in
        (least, most)

    same :
        (third.cpu.regfile hi == third.cpu.regfile hi2) ≡ true
        → count s / 2 ^ 32 ≡ (count s + 2) / 2 ^ 32
    same e =
        let eq : third.cpu.regfile hi ≡ third.cpu.regfile hi2 = ground arith in
        halves (count s) (count s + 2) (omega arith) (omega arith) (sym hi_is ∙ eq ∙ hi2_is)

    differs :
        (third.cpu.regfile hi == third.cpu.regfile hi2) ≡ false
        → count s / 2 ^ 32 ≢ (count s + 2) / 2 ^ 32
    differs e h =
        let eq : third.cpu.regfile hi ≡ third.cpu.regfile hi2 =
          hi_is ∙ ap (λ (n : ℕ). n % 2 ^ 32) h ∙ sym hi2_is in
        ground arith

    round :
        (b : Bool) (t : Machine)
        → Retires third 0 0
            (if not (third.cpu.regfile hi == third.cpu.regfile hi2)
              then wrap rv32 (third.cpu.pc + (2 ^ 32 - 12))
              else wrap rv32 (third.cpu.pc + 4))
            b
            t
        → Completes (build32 m k) third t
        → Attempted s.cpu.pc (count s) hi lo count t
    round b t jumps done = record {
      valid = done.valid;
      upper_read = unchanged hi (r.hi_range.0) ∙ hi_is;
      lower_read = unchanged lo (r.lo_range.0) ∙ lo_is;
      least = (third-sums t done).0;
      most = (third-sums t done).1;
      goes_on = elim (Bool-cases (third.cpu.regfile hi == third.cpu.regfile hi2)) [
        | inl e ↦ inl (same e, jumps.next_pc ∙ rw e (pc_is.1))
        | inr e ↦ inr (differs e, jumps.next_pc ∙ rw e (pc_is.0))
      ];
    }
      where
        unchanged : (i : ℕ) → 0 < i → t.cpu.regfile i ≡ third.cpu.regfile i
        unchanged i h = jumps.registers i ∙ ground arith

  pub words-Attempted :
      (hi lo hi2 : ℕ) (s : Machine)
      → AreRegisters hi lo hi2
      → IsValid rv32 s
      → count s + 8 < 2 ^ 64
      → Ensures
          (λ _ t. Attempted s.cpu.pc (count s) hi lo count t)
          (words
            (build32 m k)
            (csrr_word csrh hi
              ∷ csrr_word csr lo
              ∷ csrr_word csrh hi2
              ∷ b_type (2 ^ 13 - 12) hi2 hi 1 0x63
              ∷ [])
            s)
  unfolding words third
  words-Attempted hi lo hi2 s r v room =
      let s₁ : Machine = after hi csrh s in
      let s₂ : Machine = after lo csr s₁ in
      let s₃ : Machine = after hi2 csrh s₂ in
      let v₁ = after-IsValid hi csrh s (r.hi_range.1) hc v in
      let v₂ = after-IsValid lo csr s₁ (r.lo_range.1) lc v₁ in
      let v₃ = after-IsValid hi2 csrh s₂ (r.hi2_range.1) hc v₂ in
      rw
        (
          after_runs hi csrh s (r.hi_range.1) hc,
          after_runs lo csr s₁ (r.lo_range.1) lc,
          after_runs hi2 csrh s₂ (r.hi2_range.1) hc,
        )
        (Ensures-and_then _ _ (process_instr (build32 m k) (b_type (2 ^ 13 - 12) hi2 hi 1 0x63) s₃)
          _
          (Ensures-both _ _ (process_instr (build32 m k) (b_type (2 ^ 13 - 12) hi2 hi 1 0x63) s₃)
            (process_instr-branch (build32 m k) s₃ BranchOp.ne hi hi2 (2 ^ 13 - 12) (r.hi_range.1)
              (r.hi2_range.1) (omega arith) refl)
            (process_instr-Completes (build32 m k) (b_type (2 ^ 13 - 12) hi2 hi 1 0x63) s₃ v₃))
          λ b t (jumps, done). rw jumps.continues (round hi lo hi2 s r v room b t jumps done))
