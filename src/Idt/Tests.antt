-- ===== src/Idt/Tests.antt =====
-- A table whose handlers lie behind one another.
use kp.Base.{ℕ, ◌+◌, ◌*◌, ◌≡◌, ◌^◌, arith}
use kp.Idt.{idt_init}
use kp.Idt.Gates.{is_present, target, privilege_of, empty_entry, idt_init_lem}

abbrev handlers : ℕ → ℕ
handlers v = 2 ^ 32 + 16 * v

idt_init_lem_example :
    (is_present (idt_init handlers (λ _. empty_entry) 128) ≡ 1)
    × (target (idt_init handlers (λ _. empty_entry) 128) ≡ 2 ^ 32 + 2048)
    × (privilege_of (idt_init handlers (λ _. empty_entry) 128) ≡ 3)
idt_init_lem_example = idt_init_lem handlers 128 (omega arith)
