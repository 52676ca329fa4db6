-- ===== src/Trap/Tests.antt =====
-- A page in the middle of a binary's area.
use kp.Base.{refl, none, arith}
use kp.Kernel.{Vma, vma_binary}
use kp.Trap.{copied, page_copy}
use kp.Trap.Fault.{InArea, Within, page_copy-Within}

abbrev text : Vma
text = record {
  vma_type = vma_binary;
  va = 0x400000;
  len = 0x3000;
  perm = 6;
  next = none;
  prev = none;
  mem_va = 0x400100;
  file_va = 0x800000900000;
  mem_size = 0x2800;
  file_size = 0x2000;
}

text-InArea : InArea text 0x402000
text-InArea = record {
  below_end = omega arith;
  above_start = omega arith;
  image_above = omega arith;
  image_room = omega arith;
  area_room = omega arith;
  page_room = omega arith;
}

page_copy-Within_example : Within text 0x402000 (copied text 0x402000)
unfolding page_copy
page_copy-Within_example = page_copy-Within text 0x402000 text-InArea (copied text 0x402000) refl
