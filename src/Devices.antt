-- ===== src/Devices.antt =====
-- The ports of the machine as the drivers see them, `inb` and `outb` of inc/x86-64/asm.h, and whether there
-- is display memory at an address. What the hardware does is a parameter.
use kp.Base.{ℕ, Bool}

pub record Ports (D : Type 0) : Type 0 where
  pub inb : ℕ → D → ℕ × D
  pub outb : ℕ → ℕ → D → D
  pub has_display : ℕ → Bool
