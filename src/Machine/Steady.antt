-- ===== src/Machine/Steady.antt =====
-- Commands that take no cycles: they leave mcycle and the performance model as they are.
use rvem.Common.{
  ℕ, ◌+◌, ◌≡◌, refl, ◌∙◌, Bool, true, false, Option, none, some, ltb, if◌then◌else◌, Bool-cases,
  inl, inr,
}
use rvem.Arch.{xrf_size, rom_size, ram_size}
use rvem.Machine.{
  Machine, PerfModel, Event, M, pure, and_then, ◌>>=◌, get_reg, set_reg, rom_byte, ram_byte,
  set_ram_byte, get_pc, print,
}
use rvem.Machine.Safe.{Allows, Allows_mono, Allows-and_then}

-- A state with mcycle at k and the performance model p, and a result of R.
pub record Reaches {A : Type 0} (p : PerfModel) (k : ℕ) (R : A → Type 0) (a : A) (t : Machine)
    : Type 0 where
  pub result : R a
  pub at_cycle : t.mcycle ≡ k
  pub same_model : t.perf_model ≡ p

pub record Steady {A : Type 0} (R : A → Type 0) (m : M A) : Type 0 where
  pub run : (s : Machine) → Allows (Reaches s.perf_model s.mcycle R) (m s)

-- Of a result nothing need be known.
abbrev pub Any : {A : Type 0} → A → Type 0
Any a = Unit

pub pure-Steady : {A : Type 0} {R : A → Type 0} {a : A} → R a → Steady R (pure a)
pure-Steady r = record { run = λ s. record { result = r; at_cycle = refl; same_model = refl } }

-- From where mcycle is at k, a command that reaches j.
pub Reaches-then :
    {A B : Type 0} (Q : A → Type 0) (R : B → Type 0) (p : PerfModel) (j k : ℕ)
    (r : Option (A × Machine)) (f : A → M B)
    → Allows (Reaches p k Q) r
    → ((a : A) (t : Machine) → Reaches p k Q a t → Allows (Reaches t.perf_model j R) (f a t))
    → Allows (Reaches p j R) (and_then r f)
Reaches-then Q R p j k r f first next =
    Allows-and_then (Reaches p k Q) (Reaches p j R) r f first λ a t h.
      Allows_mono (Reaches t.perf_model j R) (Reaches p j R) (f a t)
        (λ b u g. record {
          result = g.result;
          at_cycle = g.at_cycle;
          same_model = g.same_model ∙ h.same_model;
        })
        (next a t h)

-- A steady command at the end.
pub steadily :
    {A B : Type 0} (Q : A → Type 0) (R : B → Type 0) (p : PerfModel) (k : ℕ)
    (r : Option (A × Machine)) (f : A → M B)
    → Allows (Reaches p k Q) r
    → ((a : A) → Steady R (f a))
    → Allows (Reaches p k R) (and_then r f)
steadily Q R p k r f first next = Reaches-then Q R p k k r f first λ a t h.
    Allows_mono (Reaches t.perf_model t.mcycle R) (Reaches t.perf_model k R) (f a t)
      (λ b u g. record {
        result = g.result;
        at_cycle = g.at_cycle ∙ h.at_cycle;
        same_model = g.same_model;
      })
      ((next a).run t)

pub bind-Steady :
    {A B : Type 0} {R : B → Type 0} {m : M A} {f : A → M B}
    → Steady Any m
    → ((a : A) → Steady R (f a))
    → Steady R (m >>= f)
bind-Steady {R} {m} {f} p next = record {
  run = λ s. steadily Any R s.perf_model s.mcycle (m s) f (p.run s) next;
}

pub if-Steady :
    {A : Type 0} {R : A → Type 0} {m n : M A} (b : Bool)
    → Steady R m
    → Steady R n
    → Steady R (if b then m else n)
if-Steady true p q = p
if-Steady false p q = q

-- A command that leaves the state as it is, or fails.
pub gets-Steady :
    {A : Type 0} (f : Machine → A) (b : Bool) → Steady Any (λ s. if b then some (f s, s) else none)
gets-Steady f true = record {
  run = λ s. record { result = tt; at_cycle = refl; same_model = refl };
}
gets-Steady f false = record { run = λ s. tt }

pub get_reg-Steady : (i : ℕ) → Steady Any (get_reg i)
unfolding get_reg
get_reg-Steady i = gets-Steady (λ s. s.cpu.regfile i) (ltb i xrf_size)

pub rom_byte-Steady : (i : ℕ) → Steady Any (rom_byte i)
unfolding rom_byte
rom_byte-Steady i = gets-Steady (λ s. s.cpu.rom i) (ltb i rom_size)

pub ram_byte-Steady : (i : ℕ) → Steady Any (ram_byte i)
unfolding ram_byte
ram_byte-Steady i = gets-Steady (λ s. s.cpu.ram i) (ltb i ram_size)

pub get_pc-Steady : Steady Any get_pc
unfolding get_pc
get_pc-Steady = gets-Steady (λ s. s.cpu.pc) true

pub print-Steady : (e : Event) → Steady Any (print e)
unfolding print
print-Steady e = record { run = λ s. record { result = tt; at_cycle = refl; same_model = refl } }

pub set_reg-Steady : (i v : ℕ) → Steady Any (set_reg i v)
unfolding set_reg
set_reg-Steady i v = record {
  run = λ s. elim (Bool-cases (ltb i xrf_size)) [
    | inl e ↦ rw e (record { result = tt; at_cycle = refl; same_model = refl })
    | inr e ↦ rw e tt
  ];
}

pub set_ram_byte-Steady : (i v : ℕ) → Steady Any (set_ram_byte i v)
unfolding set_ram_byte
set_ram_byte-Steady i v = record {
  run = λ s. elim (Bool-cases (ltb i ram_size)) [
    | inl e ↦ rw e (record { result = tt; at_cycle = refl; same_model = refl })
    | inr e ↦ rw e tt
  ];
}

pub ruleset steady_rules = (
  pure-Steady, bind-Steady, if-Steady, get_reg-Steady, rom_byte-Steady, ram_byte-Steady,
  get_pc-Steady, print-Steady, set_reg-Steady, set_ram_byte-Steady, refl,
)
