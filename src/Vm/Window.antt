-- ===== src/Vm/Window.antt =====
-- The pages of src/kernel/page.rs against the kernel's mapping of src/kernel/vm.rs.
use nek_os.Base.{ℕ, ◌+◌, ◌-◌, ◌*◌, ◌/◌, ◌≤◌, ◌<◌, bit_and, ◌≡◌, arith}
use nek_os.Base.Words.{not_usize}
use nek_os.Base.Bits.Masks.{bit_and-page_mask}
use nek_os.Page
use nek_os.Page.{PageAllocator}
use nek_os.Page.Alloc.{page_addr}
use nek_os.Vm.{kernel_start, kernel_size}

-- The allocator manages 4096 pages from the end of the kernel on, as many as `map_kernel` maps from
-- the start of the kernel on: the last page ends beyond the mapping, wherever in the first 112 MB of
-- RAM behind its start the kernel ends.
pub init-beyond_window :
    (kernel_end : ℕ)
    → kernel_start < kernel_end
    → kernel_end ≤ 0x8700_0000
    → let a = Page.init kernel_end in
      (a.total_pages ≡ 4096) × (kernel_start + kernel_size < page_addr a a.total_pages)
unfolding Page.init
init-beyond_window kernel_end lo hi =
    let e : bit_and (kernel_end + 4096 - 1) (not_usize 4095)
        ≡ (kernel_end + 4096 - 1) / 4096 * 4096 =
      bit_and-page_mask (kernel_end + 4096 - 1) (omega arith) in
    rw e (omega arith, omega arith)
