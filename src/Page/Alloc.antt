-- ===== src/Page/Alloc.antt =====
-- `PageAllocator::alloc`, src/kernel/page.rs: which page it hands out, and what it changes.
use nek_os.Base.{
  ℕ, zero, suc, ◌+◌, ◌*◌, ◌/◌, ◌%◌, ◌^◌, ◌≤◌, ◌<◌, bit_or, Option, none, some, length, length-set,
  get_or, ◌==◌, ◌≡◌, refl, sym, ◌∙◌, ◌≢◌, ◌⊎◌, inl, inr, arith, Bool-cases, ==_iff, true, false,
}
use native.Mathlib.Decide.{ℕ_discrete}
use nek_os.Page.{PageAllocator, alloc, scan, take_page, max_pages, masked}
use nek_os.Page.Bitmap.{
  used, used-le-one, masked-used, used-taken_self, used-taken_ne, count_free, count_free-taken,
  count_free-all_used,
}

-- The pages are within the bitmap and below 2 ^ 64, and `free_pages` counts the free ones.
pub record IsValid (a : PageAllocator) : Type 0 where
  pub words : length a.bitmap ≡ 64
  pub small : a.total_pages ≤ max_pages
  pub counted : a.free_pages ≡ count_free a.bitmap a.total_pages
  pub fits : a.start_addr + a.total_pages * 4096 < 2 ^ 64

-- The address of page `i`.
abbrev pub page_addr : PageAllocator → ℕ → ℕ
page_addr a i = a.start_addr + i * 4096

-- What the allocator hands out when it hands out page `i`, and how it stands afterwards.
pub record Took (a : PageAllocator) (i : ℕ) (r : Option ℕ × PageAllocator) : Type 0 where
  pub in_range : i < a.total_pages
  pub was_free : used a.bitmap i ≡ 0
  pub lowest : (j : ℕ) → j < i → used a.bitmap j ≡ 1
  pub address : r.0 ≡ some (page_addr a i)
  pub now_used : used r.1.bitmap i ≡ 1
  pub others : (j : ℕ) → i ≢ j → used r.1.bitmap j ≡ used a.bitmap j
  pub count : a.free_pages ≡ suc r.1.free_pages
  pub keeps_total : r.1.total_pages ≡ a.total_pages
  pub keeps_start : r.1.start_addr ≡ a.start_addr
  pub keeps_words : length r.1.bitmap ≡ 64

take_page-Took :
    (a : PageAllocator) (i : ℕ)
    → IsValid a
    → i < a.total_pages
    → used a.bitmap i ≡ 0
    → ((j : ℕ) → j < i → used a.bitmap j ≡ 1)
    → a.free_pages ≢ 0
    → Took a i (take_page a i)
unfolding take_page
take_page-Took a i v lt free low some_free =
    let inside : i / 64 < length a.bitmap = omega (arith, v.words, v.small) in
    record {
      in_range = lt;
      was_free = free;
      lowest = low;
      address =
          let e : (a.start_addr + i * 4096) % 2 ^ 64 ≡ a.start_addr + i * 4096 =
            omega (arith, v.fits) in
          rw e refl;
      now_used = used-taken_self a.bitmap i inside;
      others = λ j ne. used-taken_ne a.bitmap i j ne inside;
      count = omega arith;
      keeps_total = refl;
      keeps_start = refl;
      keeps_words =
          length-set a.bitmap (i / 64) (bit_or (get_or a.bitmap (i / 64) 0) (2 ^ (i % 64)))
          ∙ v.words;
    }

scan-outcome :
    (n i : ℕ) (a : PageAllocator)
    → IsValid a
    → a.free_pages ≢ 0
    → i + n ≡ a.total_pages
    → ((j : ℕ) → j < i → used a.bitmap j ≡ 1)
    → ((j : ℕ) → j < a.total_pages → used a.bitmap j ≡ 1) ⊎ ((k : ℕ) × Took a k (scan n i a))
unfolding scan
scan-outcome zero i a v some_free e low = inl (λ j l. low j (omega arith))
scan-outcome (suc n) i a v some_free e low = elim (Bool-cases (masked a i == 0)) [
  | inl free ↦ inr (i, rw free (take_page-Took a i v (omega arith) (is_free free) low some_free))
  | inr taken_already ↦
      rw taken_already
        (scan-outcome n (i + 1) a v some_free (omega arith) (λ j l. more taken_already j l))
]
  where
    is_free : (masked a i == 0) ≡ true → used a.bitmap i ≡ 0
    is_free h = (==_iff (used a.bitmap i) 0).0 (sym (masked-used a.bitmap i) ∙ h)

    is_used : (masked a i == 0) ≡ false → used a.bitmap i ≡ 1
    is_used h = ground (arith, sym (masked-used a.bitmap i) ∙ h, used-le-one a.bitmap i)

    more : (masked a i == 0) ≡ false → (j : ℕ) → j < i + 1 → used a.bitmap j ≡ 1
    more h j l = elim (ℕ_discrete i j) [
      | yes q ↦ rw (← q) (is_used h)
      | no ne ↦ low j (omega arith)
    ]

-- On a valid allocator `alloc` fails exactly when `free_pages` is 0, changing nothing, and otherwise
-- returns the address of the lowest free page, marks that page and no other as taken, and counts it.
pub alloc_lem :
    (a : PageAllocator)
    → IsValid a
    → ((a.free_pages ≡ 0) × (alloc a ≡ (none, a))) ⊎ ((i : ℕ) × Took a i (alloc a))
unfolding alloc
alloc_lem a v = elim (ℕ_discrete a.free_pages 0) [
  | yes e ↦ inl (e, rw e refl)
  | no ne ↦ elim (scan-outcome a.total_pages 0 a v ne (omega arith) (λ j l. absurd (omega arith))) [
    | inl full ↦ absurd (ne (v.counted ∙ count_free-all_used a.bitmap a.total_pages full))
    | inr (i, t) ↦ inr (i, let e : (a.free_pages == 0) ≡ false = ground arith in rw e t)
  ]
]

Took-IsValid :
    (a : PageAllocator) (i : ℕ) (r : Option ℕ × PageAllocator)
    → IsValid a
    → Took a i r
    → IsValid r.1
Took-IsValid a i r v t =
    let c : count_free a.bitmap a.total_pages ≡ suc (count_free r.1.bitmap a.total_pages) =
      count_free-taken a.bitmap r.1.bitmap i a.total_pages t.in_range t.was_free t.now_used
        t.others in
    record {
      words = t.keeps_words;
      small = rw t.keeps_total v.small;
      counted = rw t.keeps_total (omega (arith, v.counted, t.count));
      fits = rw (t.keeps_total, t.keeps_start) v.fits;
    }

-- `alloc` keeps the invariant.
pub alloc-IsValid : (a : PageAllocator) → IsValid a → IsValid (alloc a).1
alloc-IsValid a v = elim (alloc_lem a v) [
  | inl (e, same) ↦ rw same v
  | inr (i, t) ↦ Took-IsValid a i (alloc a) v t
]
