-- ===== src/Vm.antt =====
-- The kernel's mappings, src/kernel/vm.rs.
use nek_os.Base.{ℕ, ◌+◌, ◌*◌, ◌/◌, ◌^◌, bit_or, M, pure, ◌>>=◌, ◌>>◌}
use nek_os.Page.{page_size}
use nek_os.PageTable.{Phys, create, map, pte_r, pte_w, pte_x}
pub mod Window

abbrev pub kernel_start : ℕ
kernel_start = 0x8020_0000

abbrev pub kernel_size : ℕ
kernel_size = 0x0100_0000

-- `PTE_R | PTE_W`
abbrev rw_flags : ℕ
rw_flags = bit_or pte_r pte_w

-- The priority, enable and context registers of the PLIC.
unfoldable pub map_plic : ℕ → M Phys (Unit {0})
map_plic pt = do
  map pt 0x0c00_0000 0x0c00_0000 page_size rw_flags
  map pt 0x0c00_2000 0x0c00_2000 page_size rw_flags
  map pt 0x0c20_1000 0x0c20_1000 page_size rw_flags

unfoldable pub map_kernel : ℕ → M Phys (Unit {0})
map_kernel pt = do
  map pt kernel_start kernel_start kernel_size (bit_or rw_flags pte_x)
  map pt 0x1000_0000 0x1000_0000 page_size rw_flags
  map_plic pt

-- `(8usize << 60) | (pt >> PAGE_SHIFT)`
unfoldable pub satp_of : ℕ → ℕ
satp_of pt = bit_or (8 * 2 ^ 60) (pt / 2 ^ 12)

-- `init`: the kernel's own table. The writes of `satp` and the TLB flush are the machine's.
unfoldable pub init : M Phys ℕ
init = do pt ← create; map_kernel pt; pure pt
