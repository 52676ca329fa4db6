-- ===== src/Idt.antt =====
-- The interrupt descriptor table: inc/x86-64/idt.h and idt_init of kern/idt.c.
pub mod Gates
pub mod Report
mod Tests
use kp.Base.{ℕ, ◌+◌, ◌*◌, ◌/◌, ◌%◌, ◌^◌, ◌==◌, if◌then◌else◌, bit_or, List, [], ◌∷◌}

pub record IdtEntry : Type 0 where
  pub offset_lo : ℕ
  pub sel : ℕ
  pub flags : ℕ
  pub offset_hi : ℕ
  pub always0 : ℕ

abbrev pub gdt_kcode : ℕ
gdt_kcode = 8

abbrev pub idt_present : ℕ
idt_present = 2 ^ 15

abbrev pub idt_privl : ℕ → ℕ
idt_privl x = x % 4 * 2 ^ 13

abbrev pub idt_gate : ℕ → ℕ
idt_gate x = x % 16 * 2 ^ 8

abbrev pub int_gate : ℕ
int_gate = 14

abbrev pub trap_gate : ℕ
trap_gate = 15

-- The flags do not overlap, so `|` adds them; the field has 16 bits.
unfoldable pub set_idt_entry : ℕ → ℕ → ℕ → IdtEntry → IdtEntry
set_idt_entry offset flags sel entry = record entry {
  offset_lo = offset % 2 ^ 16;
  offset_hi = offset / 2 ^ 16 % 2 ^ 48;
  flags = flags % 2 ^ 16;
  sel = sel % 2 ^ 16;
}

-- A call of set_idt_entry: the vector, N of the handler isrN, the privilege and the kind of gate.
pub record Gate : Type 0 where
  pub vector : ℕ
  pub handler : ℕ
  pub privilege : ℕ
  pub kind : ℕ

abbrev pub kernel_gate : ℕ → ℕ → Gate
kernel_gate v h = record { vector = v; handler = h; privilege = 0; kind = int_gate }

abbrev pub gates : List Gate
gates =
    kernel_gate 0 0
    ∷ kernel_gate 1 1
    ∷ kernel_gate 2 2
    ∷ record { vector = 3; handler = 3; privilege = 3; kind = trap_gate }
    ∷ kernel_gate 4 4
    ∷ kernel_gate 5 5
    ∷ kernel_gate 6 6
    ∷ kernel_gate 7 7
    ∷ kernel_gate 8 8
    ∷ kernel_gate 10 10
    ∷ kernel_gate 11 11
    ∷ kernel_gate 12 12
    ∷ kernel_gate 13 13
    ∷ kernel_gate 14 14
    ∷ kernel_gate 16 16
    ∷ kernel_gate 17 17
    ∷ kernel_gate 18 18
    ∷ kernel_gate 19 19
    ∷ record { vector = 128; handler = 128; privilege = 3; kind = int_gate }
    ∷ []

abbrev pub gate_flags : Gate → ℕ
gate_flags g = idt_present + idt_privl g.privilege + idt_gate g.kind

-- `isr n` is where the assembly handler isrN lies.
unfoldable pub set_gates : (ℕ → ℕ) → List Gate → (ℕ → IdtEntry) → ℕ → IdtEntry
unfolding set_idt_entry
set_gates isr [] entries = entries
set_gates isr (g ∷ gs) entries = set_gates isr gs λ v.
    if v == g.vector
    then set_idt_entry (isr g.handler) (gate_flags g) gdt_kcode (entries v)
    else entries v

-- Loading the table's address is left to the processor.
unfoldable pub idt_init : (ℕ → ℕ) → (ℕ → IdtEntry) → ℕ → IdtEntry
unfolding set_gates
idt_init isr entries = set_gates isr gates entries
