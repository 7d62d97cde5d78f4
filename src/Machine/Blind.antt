-- ===== src/Machine/Blind.antt =====
-- Commands that do not look at the counters and at the performance model: two states that differ
-- in these only go the same way.
use rvem.Common.{
  ℕ, ◌≡◌, refl, ap, Bool, true, false, Option, none, some, ltb, ◌∷◌, if◌then◌else◌, Bool-cases, inl,
  inr,
}
use rvem.Arch.{xrf_size, rom_size, ram_size}
use rvem.Machine.{
  Cpu, Machine, Event, M, pure, and_then, ◌>>=◌, when, update, get_reg, set_reg, rom_byte, ram_byte,
  set_ram_byte, get_pc, print, tick,
}

-- The same cpu_t and the same output.
pub record Twins (s t : Machine) : Type 0 where
  pub same_cpu : s.cpu ≡ t.cpu
  pub same_output : s.output ≡ t.output

-- The same result, in such states; or both fail.
abbrev pub Agree : {A : Type 0} → Option (A × Machine) → Option (A × Machine) → Type 0
Agree none none = Unit
Agree none (some q) = ⊥
Agree (some p) none = ⊥
Agree (some (a, s)) (some (b, t)) = (a ≡ b) × Twins s t

pub record Blind {A : Type 0} (m : M A) : Type 0 where
  pub run : (s t : Machine) → Twins s t → Agree (m s) (m t)

Agree-and_then :
    {A B : Type 0} (r q : Option (A × Machine)) (f : A → M B)
    → Agree r q
    → ((a : A) → Blind (f a))
    → Agree (and_then r f) (and_then q f)
Agree-and_then none none f h next = tt
Agree-and_then none (some q) f h next = absurd h
Agree-and_then (some p) none f h next = absurd h
Agree-and_then (some (a, s)) (some (b, t)) f (e, h) next = rw e ((next b).run s t h)

pub pure-Blind : {A : Type 0} {a : A} → Blind (pure a)
pure-Blind = record { run = λ s t h. (refl, h) }

pub bind :
    {A B : Type 0} {m : M A} {f : A → M B} → Blind m → ((a : A) → Blind (f a)) → Blind (m >>= f)
bind {m} {f} p next = record { run = λ s t h. Agree-and_then (m s) (m t) f (p.run s t h) next }

pub if-Blind : {A : Type 0} {m n : M A} (b : Bool) → Blind m → Blind n → Blind (if b then m else n)
if-Blind true p q = p
if-Blind false p q = q

pub tick-Blind : Blind tick
unfolding tick
tick-Blind = record {
  run = λ s t h. (refl, record { same_cpu = h.same_cpu; same_output = h.same_output });
}

pub when-Blind : {m : M (Unit {0})} (b : Bool) → Blind m → Blind (when b m)
when-Blind b p = if-Blind b p pure-Blind

pub print-Blind : (e : Event) → Blind (print e)
unfolding print
print-Blind e = record {
  run = λ s t h.
      (refl, record { same_cpu = h.same_cpu; same_output = ap (λ o. e ∷ o) h.same_output });
}

pub get_pc-Blind : Blind get_pc
unfolding get_pc
get_pc-Blind = record { run = λ s t h. (ap (λ c. c.pc) h.same_cpu, h) }

pub get_reg-Blind : (i : ℕ) → Blind (get_reg i)
unfolding get_reg
get_reg-Blind i = record {
  run = λ s t h. elim (Bool-cases (ltb i xrf_size)) [
    | inl e ↦ rw e (ap (λ c. c.regfile i) h.same_cpu, h)
    | inr e ↦ rw e tt
  ];
}

pub rom_byte-Blind : (i : ℕ) → Blind (rom_byte i)
unfolding rom_byte
rom_byte-Blind i = record {
  run = λ s t h. elim (Bool-cases (ltb i rom_size)) [
    | inl e ↦ rw e (ap (λ c. c.rom i) h.same_cpu, h)
    | inr e ↦ rw e tt
  ];
}

pub ram_byte-Blind : (i : ℕ) → Blind (ram_byte i)
unfolding ram_byte
ram_byte-Blind i = record {
  run = λ s t h. elim (Bool-cases (ltb i ram_size)) [
    | inl e ↦ rw e (ap (λ c. c.ram i) h.same_cpu, h)
    | inr e ↦ rw e tt
  ];
}

pub set_reg-Blind : (i v : ℕ) → Blind (set_reg i v)
unfolding set_reg
set_reg-Blind i v = record {
  run = λ s t h. elim (Bool-cases (ltb i xrf_size)) [
    | inl e ↦ rw e (
      refl,
      record {
        same_cpu =
            ap {B = Cpu} (λ (c : Cpu). record c { regfile = update c.regfile i v }) h.same_cpu;
        same_output = h.same_output;
      },
    )
    | inr e ↦ rw e tt
  ];
}

pub set_ram_byte-Blind : (i v : ℕ) → Blind (set_ram_byte i v)
unfolding set_ram_byte
set_ram_byte-Blind i v = record {
  run = λ s t h. elim (Bool-cases (ltb i ram_size)) [
    | inl e ↦ rw e (
      refl,
      record {
        same_cpu = ap {B = Cpu} (λ (c : Cpu). record c { ram = update c.ram i v }) h.same_cpu;
        same_output = h.same_output;
      },
    )
    | inr e ↦ rw e tt
  ];
}

pub ruleset blind_rules = (
  pure-Blind, bind, if-Blind, when-Blind, tick-Blind, print-Blind, get_pc-Blind, get_reg-Blind,
  rom_byte-Blind, ram_byte-Blind, set_reg-Blind, set_ram_byte-Blind,
)
