-- ===== src/Idt/Report.antt =====
-- get_int_name and print_int_frame of kern/idt.c, by what they print.
use kp.Base.{ℕ, ◌^◌, ◌%◌, ◌==◌, if◌then◌else◌, Option, none, some, List, [], ◌∷◌, ◌++◌, leb}
use kp.Words.{has_bit}
use kp.Kernel.{IntFrame}
use kp.Messages.{number, text, Message, message}
use Prim.Native.String.{String}

abbrev pub int_names : List (ℕ × String)
int_names =
    (0, "Divide-by-Zero Error Exception (#DE)")
    ∷ (1, "Debug (#DB)")
    ∷ (2, "Non-Maskable Interrupt")
    ∷ (3, "Breakpoint (#BP)")
    ∷ (4, "Overflow (#OF)")
    ∷ (5, "Bound Range (#BR)")
    ∷ (6, "Invalid Opcode (#UD)")
    ∷ (7, "Device Not Available (#NM)")
    ∷ (8, "Double Fault (#DF)")
    ∷ (10, "Invalid TSS (#TS)")
    ∷ (11, "Segment Not Present (#NP)")
    ∷ (12, "Stack (#SS)")
    ∷ (13, "General Protection (#GP)")
    ∷ (14, "Page Fault (#PF)")
    ∷ (16, "x86 FPU Floating-Point (#MF)")
    ∷ (17, "Alignment Check (#AC)")
    ∷ (18, "Machine Check (#MC)")
    ∷ (19, "SIMD Floating-Point (#XF)")
    ∷ (128, "System Call")
    ∷ []

unfoldable pub name_in : List (ℕ × String) → ℕ → Option String
name_in [] i = none
name_in (n ∷ ns) i = let rest = name_in ns i in if n.0 == i then some n.1 else rest

-- `none` is an index beyond the array of 256 names.
unfoldable pub get_int_name : ℕ → Option String
get_int_name int_no =
    if leb 256 int_no then none else elim (name_in int_names int_no) as (λ _. Option String) [
      | none ↦ some "Unknown Interrupt"
      | some n ↦ some n
    ]

unfoldable pub print_error : IntFrame → ℕ → List Message
print_error f cr2 =
    if f.int_no == 14
    then message " CR2 %p\n" (number cr2 ∷ [])
      ∷ message " ERR 0x%016llx (%s, %s, %s)\n" (
          number f.err_code
          ∷ text (if has_bit f.err_code 2 then "user" else "kernel")
          ∷ text (if has_bit f.err_code 1 then "write" else "read")
          ∷ text (if has_bit f.err_code 0 then "protection" else "not present")
          ∷ [])
      ∷ []
    else message " ERR 0x%016llx\n" (number f.err_code ∷ []) ∷ []

unfoldable pub print_registers : IntFrame → List Message
print_registers f =
    message
      " RAX 0x%016llx RCX 0x%016llx RDX 0x%016llx RBX 0x%016llx\n RSP 0x%016llx RBP 0x%016llx RSI 0x%016llx RDI 0x%016llx\n R8  0x%016llx R9  0x%016llx R10 0x%016llx R11 0x%016llx\n R12 0x%016llx R13 0x%016llx R14 0x%016llx R15 0x%016llx\n"
      (number f.rax
        ∷ number f.rcx
        ∷ number f.rdx
        ∷ number f.rbx
        ∷ number f.rsp
        ∷ number f.rbp
        ∷ number f.rsi
        ∷ number f.rdi
        ∷ number f.r8
        ∷ number f.r9
        ∷ number f.r10
        ∷ number f.r11
        ∷ number f.r12
        ∷ number f.r13
        ∷ number f.r14
        ∷ number f.r15
        ∷ [])
    ∷ message
        " RIP 0x%016llx RFL 0x%016llx\n CS  0x%04x             DS  0x%04x             SS  0x%04x\n"
        (number f.rip ∷ number f.rflags ∷ number f.cs ∷ number f.ds ∷ number f.ss ∷ [])
    ∷ []

-- `frame` is the address of the frame, `cr2` the register. int_no is cut to an unsigned int.
unfoldable pub print_int_frame : ℕ → IntFrame → ℕ → Option (List Message)
unfolding get_int_name print_error print_registers name_in
print_int_frame frame f cr2 =
    elim (get_int_name (f.int_no % 2 ^ 32)) as (λ _. Option (List Message)) [
      | none ↦ none
      | some name ↦ some (
          message "INT frame at %p\n" (number frame ∷ [])
          ∷ message " INT %u: %s\n" (number f.int_no ∷ text name ∷ [])
          ∷ (print_error f cr2 ++ print_registers f))
    ]
