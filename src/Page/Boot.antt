-- ===== src/Page/Boot.antt =====
-- `init` of src/kernel/page.rs: the allocator that the kernel starts with.
use nek_os.Base.{
  ℕ, ◌+◌, ◌-◌, ◌*◌, ◌/◌, ◌%◌, ◌^◌, ◌≤◌, ◌<◌, bit_and, min, ◌≡◌, refl, sym, arith, replicate,
  length-replicate, get_or-replicate, zero, suc,
}
use nek_os.Base.Words.{not_usize}
use nek_os.Base.Bits.{bit-zero}
use nek_os.Base.Bits.Masks.{bit_and-page_mask}
use nek_os.Page.{new, init, max_pages, bitmap_size}
use nek_os.Page.Bitmap.{used, count_free}
use nek_os.Page.Alloc.{IsValid, page_addr}

fresh-used : (i : ℕ) → used (replicate bitmap_size 0) i ≡ 0
unfolding used
fresh-used i = rw (get_or-replicate {A = ℕ} bitmap_size (i / 64) 0) (bit-zero (i % 64))

fresh-count : (n : ℕ) → count_free (replicate bitmap_size 0) n ≡ n
unfolding count_free
fresh-count zero = refl
fresh-count (suc n) = omega (arith, fresh-used n, fresh-count n)

pub new-IsValid :
    (start pages : ℕ) → start + min pages max_pages * 4096 < 2 ^ 64 → IsValid (new start pages)
unfolding new
new-IsValid start pages h = record {
  words = length-replicate {A = ℕ} 64 0;
  small = omega arith;
  counted = sym (fresh-count (min pages max_pages));
  fits = h;
}

-- For a kernel image that ends inside the 128 MB of RAM, `init` gives a valid allocator, with every
-- page free, whose pages are aligned, start at or after the end of the kernel and end within RAM.
pub init_lem :
    (kernel_end : ℕ)
    → 0x8000_0000 ≤ kernel_end
    → kernel_end ≤ 0x8800_0000
    → let a = init kernel_end in
      IsValid a
      × (a.free_pages ≡ a.total_pages)
      × (a.start_addr % 4096 ≡ 0)
      × (kernel_end ≤ a.start_addr)
      × (page_addr a a.total_pages ≤ 0x8800_0000)
unfolding init
init_lem kernel_end lo hi =
    let e : bit_and (kernel_end + 4096 - 1) (not_usize 4095)
        ≡ (kernel_end + 4096 - 1) / 4096 * 4096 =
      bit_and-page_mask (kernel_end + 4096 - 1) (omega arith) in
    rw e (new-IsValid _ _ (omega arith), refl, omega arith, omega arith, omega arith)
