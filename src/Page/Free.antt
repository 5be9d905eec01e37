-- ===== src/Page/Free.antt =====
-- `PageAllocator::free`, src/kernel/page.rs: which page it gives back, and that a free undoes an
-- allocation.
use nek_os.Base.{
  ℕ, ◌+◌, ◌-◌, ◌*◌, ◌/◌, ◌%◌, ◌^◌, ◌≤◌, ◌<◌, bit_and, Option, some, length, length-set, get_or,
  ◌==◌, ◌≡◌, refl, sym, ◌∙◌, ◌≢◌, ap, ◌⊎◌, inl, inr, arith, Bool-cases, ==_iff, false, ltb, leb,
  ◌||◌,
}
use nek_os.Base.Words.{not_usize, add_usize}
use nek_os.Page.{PageAllocator, alloc, free, clear_page, masked, page_size}
use nek_os.Page.Bitmap.{
  used, used-le-one, masked-used, used-cleared_self, used-cleared_ne, count_free, count_free-taken,
  count_free-agree,
}
use nek_os.Page.Alloc.{IsValid, Took, page_addr, alloc-IsValid, alloc_lem}
use native.Mathlib.Decide.{ℕ_discrete, dec_lt}

-- Page `i` is free afterwards and counted once; no other page changes.
pub record Freed (a : PageAllocator) (i : ℕ) (a' : PageAllocator) : Type 0 where
  pub now_free : used a'.bitmap i ≡ 0
  pub others : (j : ℕ) → i ≢ j → used a'.bitmap j ≡ used a.bitmap j
  pub count : a'.free_pages ≡ a.free_pages + used a.bitmap i
  pub keeps_total : a'.total_pages ≡ a.total_pages
  pub keeps_start : a'.start_addr ≡ a.start_addr
  pub keeps_words : length a'.bitmap ≡ 64

clear_page-Freed :
    (a : PageAllocator) (i : ℕ) → IsValid a → i < a.total_pages → Freed a i (clear_page a i)
unfolding clear_page
clear_page-Freed a i v l = elim (Bool-cases (masked a i == 0)) [
  | inl free_already ↦
      let z : used a.bitmap i ≡ 0 =
        (==_iff (used a.bitmap i) 0).0 (sym (masked-used a.bitmap i) ∙ free_already) in
      rw free_already (record {
        now_free = z;
        others = λ j ne. refl;
        count = omega arith;
        keeps_total = refl;
        keeps_start = refl;
        keeps_words = v.words;
      })
  | inr taken ↦
      let inside : i / 64 < length a.bitmap = omega (arith, v.words, v.small) in
      let o : used a.bitmap i ≡ 1 =
        ground (arith, sym (masked-used a.bitmap i) ∙ taken, used-le-one a.bitmap i) in
      rw taken (record {
        now_free = used-cleared_self a.bitmap i inside;
        others = λ j ne. used-cleared_ne a.bitmap i j ne inside;
        count = omega arith;
        keeps_total = refl;
        keeps_start = refl;
        keeps_words =
            length-set a.bitmap (i / 64)
              (bit_and (get_or a.bitmap (i / 64) 0) (not_usize (2 ^ (i % 64))))
            ∙ v.words;
      })
]

-- The two cases of `free`: an address outside the managed memory, and one inside it.
free_lem :
    (a : PageAllocator) (addr : ℕ)
    → IsValid a
    → ((addr < a.start_addr) ⊎ (page_addr a a.total_pages ≤ addr) → free a addr ≡ a)
      × (a.start_addr ≤ addr
          → addr < page_addr a a.total_pages
          → Freed a ((addr - a.start_addr) / page_size) (free a addr))
unfolding free
free_lem a addr v = (outside, inside)
  where
    top : add_usize a.start_addr (a.total_pages * page_size) ≡ page_addr a a.total_pages
    top = omega (arith, v.fits)

    outside : (addr < a.start_addr) ⊎ (page_addr a a.total_pages ≤ addr) → free a addr ≡ a
    outside o = ground (arith, top)

    inside :
        a.start_addr ≤ addr
        → addr < page_addr a a.total_pages
        → Freed a ((addr - a.start_addr) / page_size) (free a addr)
    inside lo hi =
        let e : (ltb addr a.start_addr
              || leb (add_usize a.start_addr (a.total_pages * page_size)) addr)
            ≡ false =
          ground (arith, top) in
        rw e (clear_page-Freed a ((addr - a.start_addr) / page_size) v (omega arith))

Freed-IsValid :
    (a : PageAllocator) (i : ℕ) (a' : PageAllocator)
    → IsValid a
    → i < a.total_pages
    → Freed a i a'
    → IsValid a'
Freed-IsValid a i a' v l f = record {
  words = f.keeps_words;
  small = rw f.keeps_total v.small;
  counted = rw f.keeps_total counted;
  fits = rw (f.keeps_total, f.keeps_start) v.fits;
}
  where
    same : used a.bitmap i ≡ 0 → (j : ℕ) → j < a.total_pages → used a'.bitmap j ≡ used a.bitmap j
    same z j k = elim (ℕ_discrete i j) [
      | yes q ↦ rw (← q) (f.now_free ∙ sym z)
      | no ne ↦ f.others j ne
    ]

    counted : a'.free_pages ≡ count_free a'.bitmap a.total_pages
    counted = elim (ℕ_discrete (used a.bitmap i) 0) [
      | yes z ↦
          omega
            (arith, f.count, v.counted, count_free-agree a.bitmap a'.bitmap a.total_pages (same z))
      | no o ↦
          let one : used a.bitmap i ≡ 1 = omega (arith, used-le-one a.bitmap i) in
          omega (
            arith,
            f.count,
            v.counted,
            count_free-taken a'.bitmap a.bitmap i a.total_pages l f.now_free one
                (λ j ne. sym (f.others j ne)),
          )
    ]

-- `free` keeps the invariant.
pub free-IsValid : (a : PageAllocator) (addr : ℕ) → IsValid a → IsValid (free a addr)
free-IsValid a addr v = elim (dec_lt addr a.start_addr) [
  | yes lo ↦ rw ((free_lem a addr v).0 (inl lo)) v
  | no ge ↦ elim (dec_lt addr (page_addr a a.total_pages)) [
    | yes hi ↦
        Freed-IsValid a _ (free a addr) v (omega arith) ((free_lem a addr v).1 (omega arith) hi)
    | no out ↦ rw ((free_lem a addr v).0 (inr (omega arith))) v
  ]
]

-- Freeing the page that was taken undoes the taking.
free-Took :
    (a : PageAllocator) (i : ℕ)
    → IsValid a
    → Took a i (alloc a)
    → Freed (alloc a).1 i (free (alloc a).1 (page_addr a i))
free-Took a i v t =
    let b : PageAllocator = (alloc a).1 in
    let index : (page_addr a i - b.start_addr) / page_size ≡ i = omega (arith, t.keeps_start) in
    rw index at (
      (free_lem b (page_addr a i) (alloc-IsValid a v)).1 (omega (arith, t.keeps_start))
        (omega (arith, t.keeps_start, t.keeps_total, t.in_range)))

-- A page that `alloc` returns next, when page `i` is the lowest free one, is page `i`.
lowest_again :
    (a : PageAllocator) (i k : ℕ) (r : Option ℕ × PageAllocator)
    → used a.bitmap i ≡ 0
    → ((j : ℕ) → j < i → used a.bitmap j ≡ 1)
    → Took a k r
    → k ≡ i
lowest_again a i k r free low t = elim (dec_lt k i) [
  | yes lt ↦ absurd (omega (arith, low k lt, t.was_free))
  | no ge ↦ elim (dec_lt i k) [
    | yes gt ↦ absurd (omega (arith, t.lowest i gt))
    | no le ↦ omega arith
  ]
]

module _ (a : PageAllocator) (i : ℕ) (v : IsValid a) (t : Took a i (alloc a)) where
  abbrev back : PageAllocator
  back = free (alloc a).1 (page_addr a i)

  back-used : (j : ℕ) → used back.bitmap j ≡ used a.bitmap j
  back-used j = elim (ℕ_discrete i j) [
    | yes q ↦ rw (← q) ((free-Took a i v t).now_free ∙ sym t.was_free)
    | no ne ↦ (free-Took a i v t).others j ne ∙ t.others j ne
  ]

  back-count : back.free_pages ≡ a.free_pages
  back-count = omega (arith, (free-Took a i v t).count, t.now_used, t.count)

  back-alloc : (alloc back).0 ≡ some (page_addr a i)
  back-alloc = elim (alloc_lem back (free-IsValid (alloc a).1 _ (alloc-IsValid a v))) [
    | inl (z, e) ↦ absurd (omega (arith, back-count, t.count))
    | inr (k, u) ↦
        let q : k ≡ i =
          lowest_again back i k (alloc back) (back-used i ∙ t.was_free)
            (λ j l. back-used j ∙ t.lowest j l) u in
        u.address ∙ ap some (omega (arith, q, (free-Took a i v t).keeps_start, t.keeps_start))
  ]

-- Freeing what `alloc` returned gives back the allocator's state: every page has its old mark, the
-- count is the old one, and the next `alloc` returns the same page.
pub free-alloc :
    (a : PageAllocator) (p : ℕ)
    → IsValid a
    → (alloc a).0 ≡ some p
    → let a' = free (alloc a).1 p in
      ((j : ℕ) → used a'.bitmap j ≡ used a.bitmap j)
      × (a'.free_pages ≡ a.free_pages)
      × ((alloc a').0 ≡ some p)
free-alloc a p v e = elim (alloc_lem a v) [
  | inl (z, same) ↦ cc (ap (λ (r : Option ℕ × PageAllocator). r.0) same)
  | inr (i, t) ↦
      let q : p ≡ page_addr a i = cc (t.address) in
      rw q (back-used a i v t, back-count a i v t, back-alloc a i v t)
]

-- `free` of an address outside the managed memory changes nothing; inside it the page that holds the
-- address becomes free, is counted unless it was free already, and every other page keeps its mark.
pub free_outcome :
    (a : PageAllocator) (addr : ℕ)
    → IsValid a
    → (((addr < a.start_addr) ⊎ (page_addr a a.total_pages ≤ addr)) × (free a addr ≡ a))
      ⊎ ((a.start_addr ≤ addr)
          × (addr < page_addr a a.total_pages)
          × Freed a ((addr - a.start_addr) / page_size) (free a addr))
free_outcome a addr v = elim (dec_lt addr a.start_addr) [
  | yes lo ↦ inl (inl lo, (free_lem a addr v).0 (inl lo))
  | no ge ↦ elim (dec_lt addr (page_addr a a.total_pages)) [
    | no out ↦ inl (inr (omega arith), (free_lem a addr v).0 (inr (omega arith)))
    | yes hi ↦ inr (omega arith, hi, (free_lem a addr v).1 (omega arith) hi)
  ]
]
