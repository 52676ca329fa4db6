-- ===== src/Boot/MemInit.antt =====
-- mem_init of kern/pmap.c as a whole, with the tests that it runs.
--
-- How the processor reads and writes 32 bits, and what it does when the page table is installed
-- (write_msr and load_pml4), are parameters.
use kp.Base.{ℕ, ◌/◌, ◌^◌, true, false, List}
use kp.Run.{Cmd, pure, ◌>>=◌, ◌>>◌}
use kp.Words.{sub64, page_write}
use kp.Pages.{Memory}
use kp.Env.Load.{ProgramHeader}
use kp.Boot.{boot_alloc, page_init, boot_map_region, check_wx}
use kp.Boot.Init.{Sizes, BootArrays, init_arrays, init_mappings}
use kp.Boot.Merge.{MmapEntry}
use kp.SelfTest.{assert, require}
use kp.SelfTest.FreeList.{check_page_free_list}
use kp.SelfTest.Alloc.{check_page_alloc}
use kp.SelfTest.Tables.{check_kern_pml4}
use kp.SelfTest.Pages.{check_page}
use kp.SelfTest.Installed.{check_page_installed_pml4, check_page_hugepages}

-- Where the kernel, its ELF header and its boot stack lie, and its program headers.
pub record Image : Type 0 where
  pub kernel_vma : ℕ
  pub kernel_lma : ℕ
  pub end : ℕ
  pub elf_hdr : ℕ
  pub bootstack : ℕ
  pub headers : List ProgramHeader

module _ (load32 : ℕ → Cmd Memory ℕ) (store32 : ℕ → ℕ → Cmd Memory (Unit {0}))
    (install : ℕ → Cmd Memory (Unit {0})) (image : Image) where
  -- The pages, and the tests that need no mapping.
  unfoldable pub init_memory : Sizes → List MmapEntry → Cmd Memory BootArrays
  init_memory z entries = do
    a ← init_arrays image.kernel_vma image.end z entries
    end ← require (boot_alloc image.kernel_vma image.end a.next_free 0)
    page_init
        (record {
          kernel_lma = image.kernel_lma;
          kernel_end = sub64 end.0 image.kernel_vma;
          elf_hdr = image.elf_hdr;
        })
        entries
    next_free ← check_page_free_list image.kernel_vma image.end end.1 true
    check_page_alloc
    check_page (sub64 a.kern_pml4 image.kernel_vma / 4096)
    pure (record a { next_free = next_free })

  unfoldable pub mem_init : Sizes → List MmapEntry → Cmd Memory BootArrays
  mem_init z entries = do
    a ← init_memory z entries
    let pml4 = sub64 a.kern_pml4 image.kernel_vma / 4096
    init_mappings image.kernel_vma image.end z a image.bootstack image.headers
    check_kern_pml4 image.kernel_vma z a image.bootstack pml4
    install pml4
    next_free ← check_page_free_list image.kernel_vma image.end a.next_free false
    check_page_installed_pml4 load32 store32 pml4
    (λ m. assert (check_wx m pml4) m)
    check_page_hugepages load32 store32 pml4
    boot_map_region pml4 image.kernel_vma (2 ^ 32) 0 page_write
    pure (record a { next_free = next_free })
