-- ===== src/PicIrq.antt =====
-- kern/picirq.c: the two 8259A interrupt controllers.
use kp.Base.{
  ℕ, zero, suc, ◌+◌, ◌/◌, ◌^◌, ◌==◌, not, true, if◌then◌else◌, List, [], ◌∷◌, ◌++◌, none, some,
  negsuc,
}
use kp.Devices.{Ports}
use kp.Words.{has_bit}
use kp.Format.{printnum}
use kp.Console.{Io, output, put_text}

abbrev pub irq_offset : ℕ
irq_offset = 32

abbrev pub irq_slave : ℕ
irq_slave = 2

-- "enabled interrupts:"
abbrev pub enabled_text : List ℕ
enabled_text =
    101 ∷ 110 ∷ 97 ∷ 98 ∷ 108 ∷ 101 ∷ 100 ∷ 32 ∷ 105 ∷ 110 ∷ 116 ∷ 101 ∷ 114 ∷ 114 ∷ 117 ∷ 112 ∷ 116
    ∷ 115 ∷ 58 ∷ []

-- The text of " %d"; two digits are enough for an interrupt's number.
unfoldable pub number_text : ℕ → List ℕ
number_text i = elim (printnum 2 i 10 (negsuc 0) 32) as (λ _. List ℕ) [
  | none ↦ 32 ∷ []
  | some ds ↦ 32 ∷ ds
]

-- The numbers from `i` on that the mask leaves enabled.
unfoldable pub enabled_from : ℕ → ℕ → ℕ → List ℕ
unfolding number_text
enabled_from mask i zero = []
enabled_from mask i (suc n) =
    let rest = enabled_from mask (i + 1) n in if has_bit mask i then rest else number_text i ++ rest

module _ {D : Type 0} (ports : Ports D) where
  -- `mask` is a uint16_t.
  unfoldable pub irq_setmask_8259A : ℕ → Io D → Io D
  unfolding enabled_from
  irq_setmask_8259A mask s =
      let t = record s { irq_mask = mask } in
      if not s.didinit
      then t
      else put_text ports (10 ∷ []) (
          put_text ports (enabled_from mask 0 16)
            (put_text ports enabled_text (output ports 161 (mask / 256) (output ports 33 mask t))))

  -- Writes to ports, one after the other.
  unfoldable pub outputs : List (ℕ × ℕ) → Io D → Io D
  outputs [] s = s
  outputs (w ∷ ws) s = outputs ws (output ports w.0 w.1 s)

  abbrev pub setup_words : List (ℕ × ℕ)
  setup_words =
      (33, 255)
      ∷ (161, 255)
      ∷ (32, 17)
      ∷ (33, irq_offset)
      ∷ (33, 2 ^ irq_slave)
      ∷ (33, 3)
      ∷ (160, 17)
      ∷ (161, irq_offset + 8)
      ∷ (161, irq_slave)
      ∷ (161, 1)
      ∷ (32, 104)
      ∷ (32, 10)
      ∷ (160, 104)
      ∷ (160, 10)
      ∷ []

  unfoldable pub pic_init : Io D → Io D
  unfolding outputs irq_setmask_8259A
  pic_init s =
      let t = outputs setup_words (record s { didinit = true }) in
      if t.irq_mask == 65535 then t else irq_setmask_8259A t.irq_mask t
