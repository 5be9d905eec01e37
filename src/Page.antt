-- ===== src/Page.antt =====
-- The page allocator, src/kernel/page.rs: a bitmap of 64 words of 64 bits over the pages from
-- `start_addr` on. The global `PAGE_ALLOCATOR` is the optional allocator that `alloc` and `free` take.
pub mod Bitmap
pub mod Alloc
pub mod Free
pub mod Boot
use nek_os.Base.{
  ℕ, zero, suc, ◌+◌, ◌-◌, ◌*◌, ◌/◌, ◌%◌, ◌^◌, bit_and, bit_or, min, Bool, ◌||◌, Option, none, some,
  List, get_or, set, replicate, ltb, leb, ◌==◌, if◌then◌else◌,
}
use nek_os.Base.Words.{add_usize, not_usize}

abbrev pub page_size : ℕ
page_size = 4096

abbrev pub bitmap_size : ℕ
bitmap_size = 64

abbrev pub max_pages : ℕ
max_pages = bitmap_size * 64

pub record PageAllocator : Type 0 where
  pub bitmap : List ℕ
  pub total_pages : ℕ
  pub free_pages : ℕ
  pub start_addr : ℕ

unfoldable pub new : ℕ → ℕ → PageAllocator
new start_addr total_pages = record {
  bitmap = replicate bitmap_size 0;
  total_pages = min total_pages max_pages;
  free_pages = min total_pages max_pages;
  start_addr = start_addr;
}

-- `self.bitmap[i / 64] & (1 << (i % 64))`
abbrev pub masked : PageAllocator → ℕ → ℕ
masked a i = bit_and (get_or a.bitmap (i / 64) 0) (2 ^ (i % 64))

-- The body of the loop's `if`.
take_page : PageAllocator → ℕ → Option ℕ × PageAllocator
take_page a i = (
  some (add_usize a.start_addr (i * page_size)),
  record a {
    bitmap = set a.bitmap (i / 64) (bit_or (get_or a.bitmap (i / 64) 0) (2 ^ (i % 64)));
    free_pages = a.free_pages - 1;
  },
)

-- `for i in i..i + n`
scan : ℕ → ℕ → PageAllocator → Option ℕ × PageAllocator
unfolding take_page
scan zero i a = (none, a)
scan (suc n) i a = let rest = scan n (i + 1) a in if masked a i == 0 then take_page a i else rest

-- `free_pages -= 1` runs only at `free_pages != 0`.
unfoldable pub alloc : PageAllocator → Option ℕ × PageAllocator
unfolding scan
alloc a = if a.free_pages == 0 then (none, a) else scan a.total_pages 0 a

-- A free of page `i`, unless it is free already.
clear_page : PageAllocator → ℕ → PageAllocator
clear_page a i = if masked a i == 0 then a else record a {
  bitmap = set a.bitmap (i / 64) (bit_and (get_or a.bitmap (i / 64) 0) (not_usize (2 ^ (i % 64))));
  free_pages = a.free_pages + 1;
}

unfoldable pub free : PageAllocator → ℕ → PageAllocator
unfolding clear_page
free a addr =
    if ltb addr a.start_addr || leb (add_usize a.start_addr (a.total_pages * page_size)) addr
    then a
    else clear_page a ((addr - a.start_addr) / page_size)

-- `init`: the allocator for 128 MB of memory from 0x8000_0000 on, less the kernel.
unfoldable pub init : ℕ → PageAllocator
unfolding new
init kernel_end =
    let aligned_end = bit_and (kernel_end + page_size - 1) (not_usize (page_size - 1)) in
    let total_mem = 128 * 1024 * 1024 in
    let available_mem = total_mem - (aligned_end - 0x8000_0000) in
    new aligned_end (available_mem / page_size)

-- The functions of the module, on the static. `None` before `init`.
unfoldable pub alloc_static : Option PageAllocator → Option ℕ × Option PageAllocator
alloc_static none = (none, none)
alloc_static (some a) = let (p, a') = alloc a in (p, some a')

unfoldable pub free_static : ℕ → Option PageAllocator → Option PageAllocator
free_static addr none = none
free_static addr (some a) = some (free a addr)
