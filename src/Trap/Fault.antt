-- ===== src/Trap/Fault.antt =====
-- What a page fault in a binary's area copies.
use kp.Base.{
  ℕ, ◌+◌, ◌^◌, ◌<◌, ◌≤◌, ◌≡◌, ap, leb, false, inl, inr, Option, none, some, Bool-cases, arith,
}
use kp.Words.{add64, sub64}
use kp.Kernel.{Vma}
use kp.Trap.{Copy, copied, page_copy, offset_of, src_start, src_end, dst_start, dst_end}

-- The page overlaps the area, whose image lies above it; no sum leaves 64 bits.
pub record InArea (v : Vma) (page : ℕ) : Type 0 where
  pub below_end : page < v.mem_va + v.mem_size
  pub above_start : v.mem_va < page + 4096
  pub image_above : v.mem_va ≤ v.file_va
  pub image_room : v.file_va + v.file_size < 2 ^ 64
  pub area_room : v.mem_va + v.mem_size < 2 ^ 64
  pub page_room : page + 4096 + v.file_va < 2 ^ 64 + v.mem_va

-- A copy inside the page and inside the image, between places that correspond.
pub record Within (v : Vma) (page : ℕ) (c : Copy) : Type 0 where
  pub corresponds : c.from + v.mem_va ≡ c.to + v.file_va
  pub to_low : page ≤ c.to
  pub to_high : c.to + c.size ≤ page + 4096
  pub from_low : v.file_va ≤ c.from
  pub from_high : c.from + c.size ≤ v.file_va + v.file_size

module _ (v : Vma) (page : ℕ) (h : InArea v page) where
  sum_page : add64 page 4096 ≡ page + 4096
  sum_page = omega (arith, h.area_room, h.below_end, h.page_room, h.image_above)

  sum_area : add64 v.mem_va v.mem_size ≡ v.mem_va + v.mem_size
  sum_area = omega (arith, h.area_room)

  sum_image : add64 v.file_va v.file_size ≡ v.file_va + v.file_size
  sum_image = omega (arith, h.image_room)

  shifted : add64 page (offset_of v) + v.mem_va ≡ page + v.file_va
  shifted = omega (arith, h.page_room, h.image_above, h.image_room, h.area_room)

  shifted_end : add64 (add64 page 4096) (offset_of v) + v.mem_va ≡ page + 4096 + v.file_va
  shifted_end = omega (arith, h.page_room, h.image_above, h.image_room, h.area_room)

  module _ (c : Copy) (e : page_copy v page ≡ some c) where
    nonempty : leb (src_end v page) (src_start v page) ≡ false
    unfolding page_copy
    nonempty = elim (Bool-cases (leb (src_end v page) (src_start v page))) [
      | inl t ↦ absurd (cc (rw t at e))
      | inr n ↦ n
    ]

    field : (f : Copy → ℕ) → f (copied v page) ≡ f c
    unfolding page_copy
    field f = ap (λ (o : Option Copy). elim o [ none ↦ 0 | some d ↦ f d ]) (rw nonempty at e)

    from_start : src_start v page ≡ c.from
    from_start = field (λ d. d.from)

    to_start : dst_start v page ≡ c.to
    to_start = field (λ d. d.to)

    size_least :
        (c.size ≤ sub64 (src_end v page) (src_start v page))
        × (c.size ≤ sub64 (dst_end v page) (dst_start v page))
    size_least = ground (arith, field (λ d. d.size))

    facts :
        (c.from + v.mem_va ≡ c.to + v.file_va)
        × (page ≤ c.to)
        × (v.file_va ≤ c.from)
        × (c.from < src_end v page)
    facts = ground (
      arith, from_start, to_start, sum_page, sum_area, sum_image, shifted, shifted_end, nonempty,
      h.image_above,
    )

    ends :
        (src_end v page ≤ v.file_va + v.file_size)
        × (dst_end v page ≤ page + 4096)
        × (c.to ≤ dst_end v page)
        × (src_end v page < 2 ^ 64)
        × (dst_end v page < 2 ^ 64)
    ends = ground (
      arith, to_start, sum_page, sum_area, sum_image, shifted, shifted_end, h.below_end,
      h.above_start, h.area_room, h.image_room, h.page_room,
    )

    -- If a page overlaps the area of a binary, the image lies at or above the area's addresses
    -- and no sum leaves 64 bits, then what a fault on the page copies stays inside the page and
    -- inside the image, and its source and its destination have the same offset in the image and
    -- in the area.
    pub page_copy-Within : Within v page c
    page_copy-Within = record {
      corresponds = facts.0;
      to_low = facts.1;
      to_high = omega (arith, facts, ends, size_least, from_start, to_start);
      from_low = facts.2;
      from_high = omega (arith, facts, ends, size_least, from_start, to_start);
    }
