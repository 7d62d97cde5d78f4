-- ===== src/Machine/Safe.antt =====
-- Commands that index no array out of bounds: they return, in a valid state, and change no more
-- than they may. `k` bounds the cycles that a command adds.
use rvem.Common.{
  ℕ, ◌+◌, ◌%◌, ◌^◌, ◌<◌, ◌≤◌, ◌≡◌, refl, arith, ◌∙◌, Bool, true, false, Option, none, some, lt→ltb,
  if◌then◌else◌,
}
use rvem.Arch.{Xlen, bits, rom_size, ram_size, xrf_size}
use rvem.Machine.{Machine, Event, M, pure, and_then, ◌>>=◌, when, update}
use rvem.Machine.{get_reg, set_reg, rom_byte, ram_byte, set_ram_byte, get_pc, print, tick}

-- The ranges of the C types.
pub record IsValid (x : Xlen) (s : Machine) : Type 0 where
  pub rom_bytes : (i : ℕ) → s.cpu.rom i < 2 ^ 8
  pub ram_bytes : (i : ℕ) → s.cpu.ram i < 2 ^ 8
  pub registers : (i : ℕ) → s.cpu.regfile i < 2 ^ bits x
  pub pc_range : s.cpu.pc < 2 ^ bits x
  pub cycle_range : s.mcycle < 2 ^ 64
  pub instret_range : s.minstret < 2 ^ 64

-- From s to t in the course of one instruction.
pub record Advance (k : ℕ) (s t : Machine) : Type 0 where
  pub same_rom : t.cpu.rom ≡ s.cpu.rom
  pub same_pc : t.cpu.pc ≡ s.cpu.pc
  pub same_model : t.perf_model ≡ s.perf_model
  pub same_instret : t.minstret ≡ s.minstret
  pub cycles : (j : ℕ) × (j ≤ k) × (t.mcycle % 2 ^ 64 ≡ (s.mcycle + j) % 2 ^ 64)

abbrev pub Ensures : {A : Type 0} → (A → Machine → Type 0) → Option (A × Machine) → Type 0
Ensures P none = ⊥
Ensures P (some (a, t)) = P a t

pub record Safe (x : Xlen) (k : ℕ) {A : Type 0} (Q : A → Type 0) (m : M A) : Type 0 where
  pub run : (s : Machine) → IsValid x s → Ensures (λ a t. Q a × IsValid x t × Advance k s t) (m s)

Advance_refl : (k : ℕ) (s : Machine) → Advance k s s
Advance_refl k s = record {
  same_rom = refl;
  same_pc = refl;
  same_model = refl;
  same_instret = refl;
  cycles = (0, omega arith, omega arith);
}

pub Advance_trans :
    (j k : ℕ) {s t u : Machine} → Advance j s t → Advance k t u → Advance (j + k) s u
Advance_trans j k p q = record {
  same_rom = q.same_rom ∙ p.same_rom;
  same_pc = q.same_pc ∙ p.same_pc;
  same_model = q.same_model ∙ p.same_model;
  same_instret = q.same_instret ∙ p.same_instret;
  cycles =
      let (a, le_a, p') = p.cycles in
      let (b, le_b, q') = q.cycles in (a + b, omega arith, omega arith);
}

Advance_weaken : (j k : ℕ) {s t : Machine} → j ≤ k → Advance j s t → Advance k s t
Advance_weaken j k le p = record {
  same_rom = p.same_rom;
  same_pc = p.same_pc;
  same_model = p.same_model;
  same_instret = p.same_instret;
  cycles = let (a, le_a, p') = p.cycles in (a, omega arith, p');
}

pub Ensures_mono :
    {A : Type 0} (P Q : A → Machine → Type 0) (r : Option (A × Machine))
    → ((a : A) (t : Machine) → P a t → Q a t)
    → Ensures P r
    → Ensures Q r
Ensures_mono P Q none f e = e
Ensures_mono P Q (some (a, t)) f e = f a t e

pub Ensures-both :
    {A : Type 0} (P Q : A → Machine → Type 0) (r : Option (A × Machine))
    → Ensures P r
    → Ensures Q r
    → Ensures (λ a t. P a t × Q a t) r
Ensures-both P Q none p q = p
Ensures-both P Q (some (a, t)) p q = (p, q)

pub Ensures-and_then :
    {A B : Type 0} (P : A → Machine → Type 0) (Q : B → Machine → Type 0) (r : Option (A × Machine))
    (f : A → M B)
    → Ensures P r
    → ((a : A) (t : Machine) → P a t → Ensures Q (f a t))
    → Ensures Q (and_then r f)
Ensures-and_then P Q none f e g = e
Ensures-and_then P Q (some (a, t)) f e g = g a t e

-- As Ensures, but of nothing where a command fails.
abbrev pub Allows : {A : Type 0} → (A → Machine → Type 0) → Option (A × Machine) → Type 0
Allows P none = Unit
Allows P (some (a, t)) = P a t

pub Allows_mono :
    {A : Type 0} (P Q : A → Machine → Type 0) (r : Option (A × Machine))
    → ((a : A) (t : Machine) → P a t → Q a t)
    → Allows P r
    → Allows Q r
Allows_mono P Q none f e = tt
Allows_mono P Q (some (a, t)) f e = f a t e

pub Allows-and_then :
    {A B : Type 0} (P : A → Machine → Type 0) (Q : B → Machine → Type 0) (r : Option (A × Machine))
    (f : A → M B)
    → Allows P r
    → ((a : A) (t : Machine) → P a t → Allows Q (f a t))
    → Allows Q (and_then r f)
Allows-and_then P Q none f e g = tt
Allows-and_then P Q (some (a, t)) f e g = g a t e

-- What a command allows holds where it returns.
pub Ensures-Allows :
    {A : Type 0} (P Q : A → Machine → Type 0) (r : Option (A × Machine))
    → Ensures P r
    → Allows Q r
    → Ensures (λ a t. P a t × Q a t) r
Ensures-Allows P Q none p q = p
Ensures-Allows P Q (some (a, t)) p q = (p, q)

pub update-lt :
    (m : ℕ) (f : ℕ → ℕ) (i v : ℕ) → ((j : ℕ) → f j < m) → v < m → (j : ℕ) → update f i v j < m
unfolding update
update-lt m f i v h p j = ground (arith, h j)

module _ {x : Xlen} where
  pub pure-Safe : {A : Type 0} {Q : A → Type 0} {a : A} → Q a → Safe x 0 Q (pure a)
  pure-Safe q = record { run = λ s v. (q, v, Advance_refl 0 s) }

  pub gets-Safe :
      {A : Type 0} {Q : A → Type 0} (f : Machine → A)
      → ((s : Machine) → IsValid x s → Q (f s))
      → Safe x 0 Q (λ s. some (f s, s))
  gets-Safe f q = record { run = λ s v. (q s v, v, Advance_refl 0 s) }

  pub weaken :
      {A : Type 0} {Q : A → Type 0} {m : M A} (j k : ℕ) → j ≤ k → Safe x j Q m → Safe x k Q m
  weaken {m} j k le p = record {
    run = λ s v.
        Ensures_mono _ _ (m s) (λ a t (q, w, adv). (q, w, Advance_weaken j k le adv)) (p.run s v);
  }

  pub bind :
      {A B : Type 0} {Q : A → Type 0} {R : B → Type 0} {m : M A} {f : A → M B} {j k : ℕ}
      → Safe x j Q m
      → ((a : A) → Q a → Safe x k R (f a))
      → Safe x (j + k) R (m >>= f)
  bind {m} {f} {j} {k} p next = record {
    run = λ s v. Ensures-and_then _ _ (m s) f (p.run s v) λ a t (q, w, adv).
        Ensures_mono _ _ (f a t) (λ b u (r, z, adv'). (r, z, Advance_trans j k adv adv'))
          ((next a q).run t w);
  }

  -- Of a result nothing need be known.
  pub any :
      {A : Type 0} {Q : A → Type 0} {m : M A} {k : ℕ} → Safe x k Q m → Safe x k (λ _. Unit {0}) m
  any {m} p = record {
    run = λ s v. Ensures_mono _ _ (m s) (λ a t (q, w, adv). (tt, w, adv)) (p.run s v);
  }

  -- `if (test) m;`, and a choice of commands.
  pub if-Safe :
      {A : Type 0} {Q : A → Type 0} {m n : M A} {k : ℕ} (b : Bool)
      → Safe x k Q m
      → Safe x k Q n
      → Safe x k Q (if b then m else n)
  if-Safe true p q = p
  if-Safe false p q = q

  pub when-Safe :
      {m : M (Unit {0})} {k : ℕ} (b : Bool)
      → Safe x k (λ _. Unit {0}) m
      → Safe x k (λ _. Unit {0}) (when b m)
  when-Safe {k} true p = p
  when-Safe {k} false p = weaken 0 k (omega arith) (pure-Safe tt)

  pub tick-Safe : Safe x 1 (λ _. Unit {0}) tick
  unfolding tick
  tick-Safe = record {
    run = λ s v. (
      tt,
      record {
        rom_bytes = v.rom_bytes;
        ram_bytes = v.ram_bytes;
        registers = v.registers;
        pc_range = v.pc_range;
        cycle_range = omega arith;
        instret_range = v.instret_range;
      },
      record {
        same_rom = refl;
        same_pc = refl;
        same_model = refl;
        same_instret = refl;
        cycles = (1, omega arith, omega arith);
      },
    );
  }

  pub print-Safe : (e : Event) → Safe x 0 (λ _. Unit {0}) (print e)
  unfolding print
  print-Safe e = record {
    run = λ s v. (
      tt,
      record {
        rom_bytes = v.rom_bytes;
        ram_bytes = v.ram_bytes;
        registers = v.registers;
        pc_range = v.pc_range;
        cycle_range = v.cycle_range;
        instret_range = v.instret_range;
      },
      record {
        same_rom = refl;
        same_pc = refl;
        same_model = refl;
        same_instret = refl;
        cycles = (0, omega arith, omega arith);
      },
    );
  }

  pub get_pc-Safe : Safe x 0 (λ v. v < 2 ^ bits x) get_pc
  unfolding get_pc
  get_pc-Safe = record { run = λ s v. (v.pc_range, v, Advance_refl 0 s) }

  pub get_reg-Safe : (i : ℕ) → i < xrf_size → Safe x 0 (λ v. v < 2 ^ bits x) (get_reg i)
  unfolding get_reg
  get_reg-Safe i h = record {
    run = λ s v. rw (lt→ltb i xrf_size h) (v.registers i, v, Advance_refl 0 s);
  }

  pub rom_byte-Safe : (i : ℕ) → i < rom_size → Safe x 0 (λ v. v < 2 ^ 8) (rom_byte i)
  unfolding rom_byte
  rom_byte-Safe i h = record {
    run = λ s v. rw (lt→ltb i rom_size h) (v.rom_bytes i, v, Advance_refl 0 s);
  }

  pub ram_byte-Safe : (i : ℕ) → i < ram_size → Safe x 0 (λ v. v < 2 ^ 8) (ram_byte i)
  unfolding ram_byte
  ram_byte-Safe i h = record {
    run = λ s v. rw (lt→ltb i ram_size h) (v.ram_bytes i, v, Advance_refl 0 s);
  }

  pub set_reg-Safe :
      (i n : ℕ) → i < xrf_size → n < 2 ^ bits x → Safe x 0 (λ _. Unit {0}) (set_reg i n)
  unfolding set_reg
  set_reg-Safe i n h fits = record {
    run = λ s v. rw (lt→ltb i xrf_size h) (
      tt,
      record {
        rom_bytes = v.rom_bytes;
        ram_bytes = v.ram_bytes;
        registers = update-lt (2 ^ bits x) s.cpu.regfile i n v.registers fits;
        pc_range = v.pc_range;
        cycle_range = v.cycle_range;
        instret_range = v.instret_range;
      },
      record {
        same_rom = refl;
        same_pc = refl;
        same_model = refl;
        same_instret = refl;
        cycles = (0, omega arith, omega arith);
      },
    );
  }

  pub set_ram_byte-Safe :
      (i n : ℕ) → i < ram_size → n < 2 ^ 8 → Safe x 0 (λ _. Unit {0}) (set_ram_byte i n)
  unfolding set_ram_byte
  set_ram_byte-Safe i n h fits = record {
    run = λ s v. rw (lt→ltb i ram_size h) (
      tt,
      record {
        rom_bytes = v.rom_bytes;
        ram_bytes = update-lt (2 ^ 8) s.cpu.ram i n v.ram_bytes fits;
        registers = v.registers;
        pc_range = v.pc_range;
        cycle_range = v.cycle_range;
        instret_range = v.instret_range;
      },
      record {
        same_rom = refl;
        same_pc = refl;
        same_model = refl;
        same_instret = refl;
        cycles = (0, omega arith, omega arith);
      },
    );
  }
