-- ===== src/Lib.antt =====
-- This library models the kernel of KP2018, a small 64-bit kernel with paging and user programs, and
-- proves what its components promise.
--
-- How the parts work together: boot code (kern/pmap.c, kern/lab1.c) puts the free physical pages on a
-- linked list; the page allocator takes pages from it and merges them into 2 MB pages; the page tables
-- are made of such pages and count the references to what they map. An environment has a page table
-- and a list of virtual memory areas (kern/vma.c); system calls change that list, and a page fault maps
-- a page where the list has an area (kern/idt.c). lib/string.c is used by all of them. Formatted text
-- (lib/printfmt.c) goes to the console (kern/console.c), whose interrupts also fill the buffer that the
-- lines of lib/readline.c are read from.
--
-- Which file models what, by the paths of the repository:
--   Run           how a C function ends: it returns, panics, makes an access that C leaves undefined, or
--                 the model's loop bound is spent
--   Words         inc/types.h and inc/x86-64/paging.h: ROUNDUP and ROUNDDOWN as round_up and round_down,
--                 the indices of an address, page table entries
--   Pages         kern/pmap.h and struct page_info; Pages/FreeList the well-formed free list;
--                 Pages/Links delete_from_free; Pages/Merge merge_after_free; Pages/Allocator page_alloc,
--                 page_free and page_decref
--   PageTable     page_walk, page_insert, page_lookup, page_remove and check_va2pa of kern/pmap.c
--   Access        user_mem_check and user_mem_assert of kern/pmap.c
--   Strings       lib/string.c; the memory is a function from addresses to bytes
--   Kernel        the state above the allocator: struct env, struct vma, struct int_frame, curenv
--   Vma           kern/vma.c; Vma/Unmap vma_unmap
--   Env           kern/env.c; Env/Load env_create and load_icode, Env/Free env_free, Env/Alloc what
--                 env_alloc gives
--   Boot          page_init, boot_alloc, boot_map_region, boot_map_kernel and check_wx of kern/pmap.c,
--                 in Boot/Merge initial_merge of kern/lab1.c, in Boot/Init the arrays and the
--                 mappings of mem_init, in Boot/MemInit mem_init as a whole; Boot/FreePages,
--                 Boot/Blocks, Boot/InitialMerge, Boot/Scan and Boot/PageInit the free list that
--                 page_init leaves
--   SelfTest      the tests that mem_init runs: check_page_free_list, check_page_alloc, check_page,
--                 check_kern_pml4, check_page_installed_pml4 and check_page_hugepages of kern/pmap.c
--   Syscall       kern/syscall.c, and env_destroy of kern/env.c
--   Trap          kern/idt.c from int_dispatch on
--   Format        vprintfmt of lib/printfmt.c; Format/Buffer vsnprintf, and vcprintf of lib/printf.c
--   ReadLine      lib/readline.c on a terminal
--   Devices       inb and outb, and the display memory
--   Console       kern/console.c and kern/printf.c: the ports and the display; Console/Keyboard the
--                 keyboard; Console/Buffer the input buffer; Console/Input cons_intr, cons_getc, getchar
--                 and cons_init
--   PicIrq        kern/picirq.c
--   Idt           the interrupt descriptor table: inc/x86-64/idt.h and idt_init of kern/idt.c;
--                 Idt/Report print_int_frame, by what it prints
--   Gdt           the global descriptor table: inc/x86-64/gdt.h and kern/gdt.c
--   Monitor       runcmd of kern/monitor.c; Monitor/Commands the commands and the loop of monitor
--   Messages      calls of cprintf as values
--   User          lib/libmain.c, lib/syscall.c, lib/exit.c and getchar of lib/console.c; User/Calls the
--                 same with the calls served by kern/syscall.c
--   Start         kmain of kern/main.c from mem_init on, and what the _panic of kern/main.c and that of
--                 lib/panic.c print
-- A function keeps its name; the parts it is split into stand beside it. Modules named Tests hold
-- concrete states.
--
-- State: a pointer to a struct is an index, NULL is `none`; the state is passed from one command to the
-- next by do blocks. Words are natural numbers with their wrap-around written out, the ints that count
-- characters as their 32-bit patterns. A frame of physical
-- memory is a function from the index of a 64-bit word to its contents.
--
-- Bounds: the search of the free list has one step more than there are pages, which the theorem on
-- delete_from_free shows to be enough; the search of a list of areas has one step more than there are
-- VMA structures, and the theorem on vma_lookup has that as its condition. A loop over a range of
-- addresses has one step more than the range has pages. strlen and its like take their fuel as an
-- argument, vma_unmap takes the number of rounds of its outer loop, which the code does not bound.
-- Loops that end when a device has nothing more have one turn for each character and one for the end.
--
-- Not modelled: assembly, kmain's set-up of the console, the segments and the interrupt table, and
-- interrupts taken in the kernel. The memory map that the boot loader leaves is a list; the test of
-- its address by KADDR is not made. What goes through the processor's address translation (reads and
-- writes of user memory by the kernel) is a parameter,
-- as are what the devices do at a port and the addresses that the build decides. The contents of
-- frames and the bytes that lib/string.c moves are not connected.
pub mod Base
pub mod Run
pub mod Words
pub mod Pages
pub mod PageTable
pub mod Strings
pub mod Kernel
pub mod Vma
pub mod Env
pub mod Access
pub mod Syscall
pub mod Trap
pub mod Boot
pub mod SelfTest
pub mod Format
pub mod Devices
pub mod Console
pub mod PicIrq
pub mod ReadLine
pub mod Idt
pub mod Gdt
pub mod Monitor
pub mod Messages
pub mod User
pub mod Start
