-- ===== src/Gdt.antt =====
-- The global descriptor table: inc/x86-64/gdt.h and kern/gdt.c.
--
-- Loading the table and the task selector is left to the processor.
use kp.Base.{ℕ, ◌+◌, ◌*◌, ◌/◌, ◌%◌, ◌^◌, ◌≡◌, ◌<◌, ◌==◌, if◌then◌else◌, bit_or, arith}
use kp.Boot.Init.{kstack_top}

pub record GdtEntry : Type 0 where
  pub limit_low : ℕ
  pub base_low : ℕ
  pub base_middle : ℕ
  pub flags : ℕ
  pub base_high : ℕ

pub record TssEntry : Type 0 where
  pub entry : GdtEntry
  pub tss_base_high : ℕ
  pub always0 : ℕ

abbrev pub gdt_limit : ℕ → ℕ
gdt_limit x = x % 16 * 2 ^ 8

abbrev pub gdt_rw : ℕ
gdt_rw = 2

abbrev pub gdt_exec : ℕ
gdt_exec = 8

abbrev pub gdt_default : ℕ
gdt_default = 16

abbrev pub gdt_privl : ℕ → ℕ
gdt_privl x = x % 4 * 2 ^ 5

abbrev pub gdt_present : ℕ
gdt_present = 2 ^ 7

abbrev pub gdt_long_mode : ℕ
gdt_long_mode = 2 ^ 13

abbrev pub gdt_kdata_flags : ℕ
gdt_kdata_flags = gdt_rw + gdt_default + gdt_present

abbrev pub gdt_kcode_flags : ℕ
gdt_kcode_flags = gdt_rw + gdt_exec + gdt_default + gdt_present

abbrev pub gdt_tss_flags : ℕ
gdt_tss_flags = gdt_present + 9

abbrev pub size_of_tss : ℕ
size_of_tss = 104

abbrev pub flat : ℕ → GdtEntry
flat flags = record { limit_low = 0; base_low = 0; base_middle = 0; flags = flags; base_high = 0 }

-- The entries by their number, a selector divided by 8.
unfoldable pub gdt_entries : ℕ → GdtEntry
gdt_entries i =
    if i == 1
    then flat (gdt_kcode_flags + gdt_long_mode)
    else if i == 2
    then flat gdt_kdata_flags
    else if i == 4
    then flat (gdt_kcode_flags + gdt_privl 3 + gdt_long_mode)
    else if i == 3
    then flat (gdt_kdata_flags + gdt_privl 3)
    else flat 0

unfoldable pub set_gdt_entry : ℕ → ℕ → ℕ → GdtEntry
set_gdt_entry base limit flags = record {
  base_low = base % 2 ^ 16;
  base_middle = base / 2 ^ 16 % 2 ^ 8;
  base_high = base / 2 ^ 24 % 2 ^ 8;
  limit_low = limit % 2 ^ 16;
  flags = bit_or flags (gdt_limit (limit / 2 ^ 16)) % 2 ^ 16;
}

unfoldable pub set_tss_entry : ℕ → TssEntry → TssEntry
unfolding set_gdt_entry
set_tss_entry tss e = record e {
  entry = set_gdt_entry tss size_of_tss gdt_tss_flags;
  tss_base_high = tss / 2 ^ 32 % 2 ^ 32;
}

-- The stack that the processor takes in the kernel, and the entry of the task state.
pub record Cpu : Type 0 where
  pub rsp0 : ℕ
  pub tss_entry : TssEntry

unfoldable pub gdt_init_percpu : ℕ → Cpu → Cpu
unfolding set_tss_entry
gdt_init_percpu tss c = record { rsp0 = kstack_top; tss_entry = set_tss_entry tss c.tss_entry }

-- How the processor puts the base of the task state together.
abbrev pub tss_base : TssEntry → ℕ
tss_base e =
    e.tss_base_high * 2 ^ 32
    + e.entry.base_high * 2 ^ 24
    + e.entry.base_middle * 2 ^ 16
    + e.entry.base_low

-- The processor finds the task state where it lies.
pub gdt_init_percpu_lem :
    (tss : ℕ) (c : Cpu) → tss < 2 ^ 64 → tss_base (gdt_init_percpu tss c).tss_entry ≡ tss
unfolding gdt_init_percpu set_tss_entry set_gdt_entry
gdt_init_percpu_lem tss c h = omega arith
