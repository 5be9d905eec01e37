-- ===== src/PageTable/Walk.antt =====
-- `walk` of src/kernel/pgtable.rs, level by level: what a lookup reads, and what it builds when it may
-- allocate tables.
use nek_os.Base.{
  ℕ, ◌+◌, ◌*◌, ◌/◌, ◌%◌, ◌^◌, ◌<◌, ◌≤◌, true, false, Option, none, some, ◌≡◌, refl, ap, ◌∙◌, ◌≢◌,
  ◌⊎◌, inl, inr, arith, if◌then◌else◌, Bool-cases, ==_refl,
}
use native.Mathlib.Decide.{ℕ_discrete}
use nek_os.Page.{PageAllocator, alloc, alloc_static}
use nek_os.Page.Bitmap.{used}
use nek_os.Page.Alloc.{IsValid, Took, page_addr, alloc_lem, alloc-IsValid}
use nek_os.PageTable.{
  Phys, create, clear, descend, entry, is_valid, is_leaf, pte_to_pa, pa_to_pte, pte_v, write_word,
}
use nek_os.PageTable.Pte.{pa_to_pte_lem, pte_to_pa-pa_to_pte, is_valid_lem, is_leaf_lem}

-- The table below an entry, if the entry is valid and no leaf.
unfoldable pub next_table : ℕ → Option ℕ
next_table pte = if is_valid pte then (if is_leaf pte then none else some (pte_to_pa pte)) else none

-- Without allocation a level reads one entry and changes nothing.
pub descend-false :
    (pt i : ℕ) (s : Phys) → descend false pt i s ≡ (next_table (s.mem (entry pt i)), s)
unfolding descend next_table
descend-false pt i s = ground arith

-- The allocator of a machine whose page tables can name all its pages.
pub record IsReady (s : Phys) (a : PageAllocator) : Type 0 where
  pub here : s.pages ≡ some a
  pub valid : IsValid a
  pub aligned : a.start_addr % 4096 ≡ 0
  pub small : a.start_addr + a.total_pages * 4096 < 2 ^ 56

-- `x` is the address of a page that `a` has handed out.
pub record Owned (a : PageAllocator) (x : ℕ) : Type 0 where
  pub index : ℕ
  pub in_range : index < a.total_pages
  pub taken : used a.bitmap index ≡ 1
  pub address : x ≡ page_addr a index

pub Owned-apart :
    (a : PageAllocator) (x y : ℕ) → Owned a x → Owned a y → x ≢ y → (x + 4096 ≤ y) ⊎ (y + 4096 ≤ x)
Owned-apart a x y ox oy ne = elim (ℕ_discrete ox.index oy.index) [
  | yes e ↦ absurd (ne (omega (arith, ox.address, oy.address)))
  | no d ↦ omega (arith, ox.address, oy.address)
]

-- What a new table `n` is: a cleared page that nobody had, and nothing else changes.
pub record Created (s : Phys) (a : PageAllocator) (n : ℕ) (t : Phys) (b : PageAllocator)
    : Type 0 where
  pub ready : IsReady t b
  pub owned : Owned b n
  pub keeps : (x : ℕ) → Owned a x → Owned b x × (x ≢ n)
  pub cleared : (x : ℕ) → n ≤ x → x < n + 4096 → t.mem x ≡ 0
  pub frame : (x : ℕ) → (x < n) ⊎ (n + 4096 ≤ x) → t.mem x ≡ s.mem x

Took-Created :
    (s : Phys) (a : PageAllocator) (i : ℕ)
    → IsReady s a
    → Took a i (alloc a)
    → let b = (alloc a).1 in
      Created s a (page_addr a i) (clear (page_addr a i) (record s { pages = some b })) b
Took-Created s a i r t = record {
  ready = record {
    here = refl;
    valid = alloc-IsValid a r.valid;
    aligned = rw t.keeps_start r.aligned;
    small = rw (t.keeps_start, t.keeps_total) r.small;
  };
  owned = record {
    index = i;
    in_range = rw t.keeps_total t.in_range;
    taken = t.now_used;
    address = rw t.keeps_start refl;
  };
  keeps = λ x o.
      let ne : i ≢ o.index =
        λ e. absurd (omega (arith, t.was_free, o.taken, ap (used a.bitmap) e)) in
      (
        record {
          index = o.index;
          in_range = rw t.keeps_total o.in_range;
          taken = t.others o.index ne ∙ o.taken;
          address = rw t.keeps_start o.address;
        },
        λ e. ne (omega (arith, o.address)),
      );
  cleared = λ x lo hi. ground arith;
  frame = λ x out. ground arith;
}

create-some :
    (s : Phys) (a : PageAllocator) (p : ℕ)
    → s.pages ≡ some a
    → (alloc a).0 ≡ some p
    → create s ≡ (some p, clear p (record s { pages = some (alloc a).1 }))
unfolding create alloc_static
create-some s a p h e = ground arith

create-none :
    (s : Phys) (a : PageAllocator) → s.pages ≡ some a → (alloc a).0 ≡ none → (create s).0 ≡ none
unfolding create alloc_static
create-none s a h e = ground arith

pub create_lem :
    (s t : Phys) (a : PageAllocator) (n : ℕ)
    → IsReady s a
    → create s ≡ (some n, t)
    → (b : PageAllocator) × Created s a n t b
create_lem s t a n r e = elim (alloc_lem a r.valid) [
  | inl (z, same) ↦ cc (create-none s a r.here (ap (λ (x : Option ℕ × PageAllocator). x.0) same))
  | inr (i, took) ↦
      let made = create-some s a (page_addr a i) r.here took.address in
      let en : n ≡ page_addr a i = cc made in
      let et : t ≡ clear (page_addr a i) (record s { pages = some (alloc a).1 }) = cc made in
      ((alloc a).1, rw (en, et) (Took-Created s a i r took))
]

-- One level that may allocate leaves a machine in which the entry leads to the table returned, which
-- either was there and nothing changed, or is a new page.
pub record Descended (s : Phys) (a : PageAllocator) (pt i n : ℕ) (t : Phys) (b : PageAllocator)
    : Type 0 where
  pub ready : IsReady t b
  pub linked : next_table (t.mem (entry pt i)) ≡ some n
  pub keeps : (x : ℕ) → Owned a x → Owned b x
  pub origin :
      (next_table (s.mem (entry pt i)) ≡ some n)
      ⊎ (Owned b n × ((x : ℕ) → Owned a x → x ≢ n) × ((x : ℕ) → n ≤ x → x < n + 4096 → t.mem x ≡ 0))
  pub frame :
      (x : ℕ)
      → x ≢ entry pt i
      → (x < n) ⊎ (n + 4096 ≤ x) ⊎ (next_table (s.mem (entry pt i)) ≡ some n)
      → t.mem x ≡ s.mem x

descend-true_there :
    (s t : Phys) (a : PageAllocator) (pt i n : ℕ)
    → IsReady s a
    → is_valid (s.mem (entry pt i)) ≡ true
    → descend true pt i s ≡ (some n, t)
    → (next_table (s.mem (entry pt i)) ≡ some n) × (t ≡ s)
unfolding descend next_table
descend-true_there s t a pt i n r v e = ground arith

descend-true_new :
    (s t : Phys) (pt i n : ℕ)
    → is_valid (s.mem (entry pt i)) ≡ false
    → descend true pt i s ≡ (some n, t)
    → (u : Phys) × (create s ≡ (some n, u))
      × (t ≡ record u { mem = write_word u.mem (entry pt i) (pa_to_pte n pte_v) })
unfolding descend
descend-true_new s t pt i n v e = ((create s).1, ground arith, ground arith)

pub next_table-pa_to_pte :
    (n : ℕ) → n < 2 ^ 56 → n % 4096 ≡ 0 → next_table (pa_to_pte n pte_v) ≡ some n
unfolding next_table
next_table-pa_to_pte n h a =
    let w : pa_to_pte n 1 ≡ n / 4096 * 1024 + 1 = pa_to_pte_lem n 1 h (omega arith) in
    rw (is_valid_lem (pa_to_pte n 1) (omega arith), is_leaf_lem (pa_to_pte n 1) (omega arith))
      (ap some (pte_to_pa-pa_to_pte n 1 h a (omega arith)))

Descended-there :
    (s t : Phys) (a : PageAllocator) (pt i n : ℕ)
    → IsReady s a
    → next_table (s.mem (entry pt i)) ≡ some n
    → t ≡ s
    → Descended s a pt i n t a
Descended-there s t a pt i n r l e =
    rw e
      (record { ready = r; linked = l; keeps = λ x o. o; origin = inl l; frame = λ x ne o. refl })

Descended-new :
    (s u : Phys) (a b : PageAllocator) (pt i n : ℕ)
    → i < 512
    → Owned a pt
    → is_valid (s.mem (entry pt i)) ≡ false
    → Created s a n u b
    → Descended s a pt i n (record u { mem = write_word u.mem (entry pt i) (pa_to_pte n pte_v) }) b
Descended-new s u a b pt i n l o v c = record {
  ready = record {
    here = c.ready.here;
    valid = c.ready.valid;
    aligned = c.ready.aligned;
    small = c.ready.small;
  };
  linked = rw (==_refl (entry pt i)) (
      next_table-pa_to_pte n (omega (arith, c.owned.address, c.owned.in_range, c.ready.small))
        (omega (arith, c.owned.address, c.ready.aligned)));
  keeps = λ x ox. (c.keeps x ox).0;
  origin = inr (
    c.owned,
    λ x ox. (c.keeps x ox).1,
    λ x lo hi.
        ground
          (arith, c.cleared x lo hi, Owned-apart b pt n (c.keeps pt o).0 c.owned (c.keeps pt o).1),
  );
  frame = λ x ne out. ground (arith, c.frame x, was v);
}
  where
    was : is_valid (s.mem (entry pt i)) ≡ false → next_table (s.mem (entry pt i)) ≡ none
    was h = unfold next_table in rw h refl

-- A level of `walk(.., true)` over a table that is in use.
pub descend_lem :
    (s t : Phys) (a : PageAllocator) (pt i n : ℕ)
    → IsReady s a
    → Owned a pt
    → i < 512
    → descend true pt i s ≡ (some n, t)
    → (b : PageAllocator) × Descended s a pt i n t b
descend_lem s t a pt i n r o l e = elim (Bool-cases (is_valid (s.mem (entry pt i)))) [
  | inl v ↦
      let (h, q) = descend-true_there s t a pt i n r v e in (a, Descended-there s t a pt i n r h q)
  | inr v ↦
      let (u, h, q) = descend-true_new s t pt i n v e in
      let (b, c) = create_lem s u a n r h in (b, rw q (Descended-new s u a b pt i n l o v c))
]
