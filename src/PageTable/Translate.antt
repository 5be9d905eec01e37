-- ===== src/PageTable/Translate.antt =====
-- `map` against `virt_to_phys`, src/kernel/pgtable.rs: a mapped page is translated to the frame that
-- it was mapped to.
use nek_os.Base.{
  ℕ, zero, suc, ◌+◌, ◌-◌, ◌*◌, ◌/◌, ◌%◌, ◌^◌, ◌<◌, ◌≤◌, true, false, some, ◌≡◌, refl, sym, ap, ◌∙◌,
  ◌≢◌, ◌⊎◌, inl, inr, arith, ==_refl, >>=-some, bit_or, bit_and,
}
use nek_os.Base.Words.{add_usize}
use nek_os.Base.Bits.Masks.{bit_and-ones}
use nek_os.Page.{PageAllocator, page_size}
use nek_os.PageTable.{
  Phys, descend, walk, map_page, entry, vpn, is_valid, pte_to_pa, pa_to_pte, pte_v, write_word,
  virt_to_phys,
}
use nek_os.PageTable.Pte.{pa_to_pte_lem, pte_to_pa-pa_to_pte, is_valid_lem, vpn-lt, or_valid}
use nek_os.PageTable.Walk.{
  next_table, descend-false, IsReady, Owned, Owned-apart, Descended, descend_lem,
}

-- The tables on the way to `va` below the root `pt` are in use, and no table occurs twice.
pub record HasTables (s : Phys) (a : PageAllocator) (pt va : ℕ) : Type 0 where
  pub root : Owned a pt
  pub level1 : (n : ℕ) → next_table (s.mem (entry pt (vpn va 2))) ≡ some n → Owned a n × (n ≢ pt)
  pub level0 :
      (n m : ℕ)
      → next_table (s.mem (entry pt (vpn va 2))) ≡ some n
      → next_table (s.mem (entry n (vpn va 1))) ≡ some m
      → Owned a m × (m ≢ n) × (m ≢ pt)

-- The lookup of `va` by the two tables that its entries name.
pub walk-false :
    (pt va n m : ℕ) (s : Phys)
    → next_table (s.mem (entry pt (vpn va 2))) ≡ some n
    → next_table (s.mem (entry n (vpn va 1))) ≡ some m
    → walk pt va false s ≡ (some (entry m (vpn va 0)), s)
unfolding walk
walk-false pt va n m s h k =
    rw (descend-false pt (vpn va 2) s, h, descend-false n (vpn va 1) s, k) refl

-- What a successful `walk(pt, va, true)` leaves: two distinct tables in use below the root.
record Walked (s : Phys) (pt va p : ℕ) (t : Phys) : Type 0 where
  table1 : ℕ
  table0 : ℕ
  link1 : next_table (t.mem (entry pt (vpn va 2))) ≡ some table1
  link0 : next_table (t.mem (entry table1 (vpn va 1))) ≡ some table0
  apart1 : (table1 + 4096 ≤ pt) ⊎ (pt + 4096 ≤ table1)
  apart0 : (table0 + 4096 ≤ pt) ⊎ (pt + 4096 ≤ table0)
  apart : (table0 + 4096 ≤ table1) ⊎ (table1 + 4096 ≤ table0)
  target : p ≡ entry table0 (vpn va 0)

-- The two levels that `walk` goes down are in use and distinct from the root and one another.
module _ (pt va n : ℕ) (s u : Phys) (a b : PageAllocator) (h : HasTables s a pt va)
    (d1 : Descended s a pt (vpn va 2) n u b) where
  table1 : Owned b n × (n ≢ pt)
  table1 = elim d1.origin [
    | inl l ↦ (d1.keeps n (h.level1 n l).0, (h.level1 n l).1)
    | inr (o, new, z) ↦ (o, λ q. new pt h.root (sym q))
  ]

  table1_apart : (n + 4096 ≤ pt) ⊎ (pt + 4096 ≤ n)
  table1_apart = Owned-apart b n pt table1.0 (d1.keeps pt h.root) table1.1

module _ (pt va n m : ℕ) (s u t : Phys) (a b c : PageAllocator) (h : HasTables s a pt va)
    (d1 : Descended s a pt (vpn va 2) n u b) (d0 : Descended u b n (vpn va 1) m t c) where
  owned_n : Owned b n
  owned_n = (table1 pt va n s u a b h d1).0

  n_pt : (n + 4096 ≤ pt) ⊎ (pt + 4096 ≤ n)
  n_pt = table1_apart pt va n s u a b h d1

  table0 : Owned c m × (m ≢ n) × (m ≢ pt)
  table0 = elim d0.origin [
    | inl l0 ↦ elim d1.origin [
      | inl l1 ↦
          let same : u.mem (entry n (vpn va 1)) ≡ s.mem (entry n (vpn va 1)) =
            d1.frame (entry n (vpn va 1))
              (λ q. absurd (omega (arith, n_pt, vpn-lt va 1, vpn-lt va 2))) (inr (inr l1)) in
          let old = h.level0 n m l1 (ap next_table (sym same) ∙ l0) in
          (d0.keeps m (d1.keeps m old.0), old.1, old.2)
      | inr (o, new, z) ↦
          let empty : u.mem (entry n (vpn va 1)) ≡ 0 =
            z (entry n (vpn va 1)) (omega arith) (omega (arith, vpn-lt va 1)) in
          absurd (unfold next_table in cc (ap next_table empty))
    ]
    | inr (o, new, z) ↦ (o, λ q. new n owned_n (sym q), λ q. new pt (d1.keeps pt h.root) (sym q))
  ]

  m_pt : (m + 4096 ≤ pt) ⊎ (pt + 4096 ≤ m)
  m_pt = Owned-apart c m pt table0.0 (d0.keeps pt (d1.keeps pt h.root)) table0.2

  m_n : (m + 4096 ≤ n) ⊎ (n + 4096 ≤ m)
  m_n = Owned-apart c m n table0.0 (d0.keeps n owned_n) table0.1

  outside : (entry pt (vpn va 2) < m) ⊎ (m + 4096 ≤ entry pt (vpn va 2))
  outside = omega (arith, m_pt, vpn-lt va 2)

  link_kept : t.mem (entry pt (vpn va 2)) ≡ u.mem (entry pt (vpn va 2))
  link_kept =
      d0.frame (entry pt (vpn va 2)) (λ q. absurd (omega (arith, n_pt, vpn-lt va 1, vpn-lt va 2)))
        (weaken outside)
    where
      weaken :
          (entry pt (vpn va 2) < m) ⊎ (m + 4096 ≤ entry pt (vpn va 2))
          → (entry pt (vpn va 2) < m)
            ⊎ (m + 4096 ≤ entry pt (vpn va 2))
            ⊎ (next_table (u.mem (entry n (vpn va 1))) ≡ some m)
      weaken (inl q) = inl q
      weaken (inr q) = inr (inl q)

  levels-Walked : Walked s pt va (entry m (vpn va 0)) t
  levels-Walked = record {
    table1 = n;
    table0 = m;
    link1 = ap next_table link_kept ∙ d1.linked;
    link0 = d0.linked;
    apart1 = n_pt;
    apart0 = m_pt;
    apart = m_n;
    target = refl;
  }

walk-Walked :
    (pt va p : ℕ) (s t : Phys) (a : PageAllocator)
    → IsReady s a
    → HasTables s a pt va
    → walk pt va true s ≡ (some p, t)
    → Walked s pt va p t
unfolding walk
walk-Walked pt va p s t a r h e =
    let (n, u, e1, rest) = >>=-some (descend true pt (vpn va 2)) _ s e in
    let (m, w, e0, last) = >>=-some (descend true n (vpn va 1)) _ u rest in
    let (b, d1) = descend_lem s u a pt (vpn va 2) n r h.root (vpn-lt va 2) e1 in
    let (c, d0) =
      descend_lem u w b n (vpn va 1) m d1.ready (table1 pt va n s u a b h d1).0 (vpn-lt va 1) e0 in
    let ep : p ≡ entry m (vpn va 0) = cc last in
    let et : t ≡ w = cc last in rw (ep, et) (levels-Walked pt va n m s u w a b c h d1 d0)

map_page-some :
    (pt va pa flags : ℕ) (s t : Phys)
    → map_page pt va pa flags s ≡ (some tt, t)
    → (p : ℕ) × (u : Phys) × (walk pt va true s ≡ (some p, u))
      × (t ≡ record u { mem = write_word u.mem p (pa_to_pte pa (bit_or flags pte_v)) })
unfolding map_page
map_page-some pt va pa flags s t e =
    let (p, u, ew, rest) = >>=-some (walk pt va true) _ s e in (p, u, ew, ground arith)

vpn-offset :
    (va off level : ℕ)
    → va % 4096 ≡ 0
    → off < 4096
    → level < 3
    → vpn (va + off) level ≡ vpn va level
vpn-offset va off zero a l k =
    let e : (va + off) / 2 ^ 12 ≡ va / 2 ^ 12 = omega arith in ap (λ (x : ℕ). bit_and x 0x1FF) e
vpn-offset va off (suc zero) a l k =
    let e : (va + off) / 2 ^ 21 ≡ va / 2 ^ 21 = omega arith in ap (λ (x : ℕ). bit_and x 0x1FF) e
vpn-offset va off (suc (suc zero)) a l k =
    let e : (va + off) / 2 ^ 30 ≡ va / 2 ^ 30 = omega arith in ap (λ (x : ℕ). bit_and x 0x1FF) e
vpn-offset va off (suc (suc (suc level))) a l k = absurd (omega arith)

page_offset : (va off : ℕ) → va % 4096 ≡ 0 → off < 4096 → bit_and (va + off) (page_size - 1) ≡ off
page_offset va off a l = bit_and-ones 12 (va + off) ∙ omega arith

-- The entry that `map` writes is valid and names the frame.
leaf_entry :
    (pa flags : ℕ)
    → pa % 4096 ≡ 0
    → pa < 2 ^ 56
    → flags < 2 ^ 10
    → let pte = pa_to_pte pa (bit_or flags pte_v) in (is_valid pte ≡ true) × (pte_to_pa pte ≡ pa)
leaf_entry pa flags a sp fl =
    let (small, odd) = or_valid flags fl in
    let w : pa_to_pte pa (bit_or flags 1) ≡ pa / 4096 * 1024 + bit_or flags 1 =
      pa_to_pte_lem pa (bit_or flags 1) sp small in
    (
      is_valid_lem (pa_to_pte pa (bit_or flags 1)) (omega arith),
      pte_to_pa-pa_to_pte pa (bit_or flags 1) sp a small,
    )

virt_to_phys-read :
    (pt va off p pa : ℕ) (t : Phys)
    → walk pt (va + off) false t ≡ (some p, t)
    → is_valid (t.mem p) ≡ true
    → pte_to_pa (t.mem p) ≡ pa
    → va % 4096 ≡ 0
    → off < 4096
    → pa < 2 ^ 56
    → virt_to_phys pt (va + off) t ≡ (some (pa + off), t)
unfolding virt_to_phys
virt_to_phys-read pt va off p pa t w v q a l sp =
    let sum : add_usize pa off ≡ pa + off = omega arith in
    rw (w, v, q, page_offset va off a l, sum) refl

-- Writing the entry that a walk found, and looking it up again.
Walked-rewalk :
    (s u : Phys) (pt va off p v : ℕ)
    → Walked s pt va p u
    → va % 4096 ≡ 0
    → off < 4096
    → let t = record u { mem = write_word u.mem p v } in walk pt (va + off) false t ≡ (some p, t)
Walked-rewalk s u pt va off p v w a l =
    let t : Phys = record u { mem = write_word u.mem p v } in
    let e2 = vpn-offset va off 2 a l (omega arith) in
    let e1 = vpn-offset va off 1 a l (omega arith) in
    let e0 = vpn-offset va off 0 a l (omega arith) in
    let k1 : t.mem (entry pt (vpn va 2)) ≡ u.mem (entry pt (vpn va 2)) =
      ground (arith, w.target, w.apart0, vpn-lt va 2, vpn-lt va 0) in
    let k0 : t.mem (entry w.table1 (vpn va 1)) ≡ u.mem (entry w.table1 (vpn va 1)) =
      ground (arith, w.target, w.apart, vpn-lt va 1, vpn-lt va 0) in
    walk-false pt (va + off) w.table1 w.table0 t (rw (e2, k1) w.link1) (rw (e1, k0) w.link0)
    ∙ ap (λ (q : ℕ). (some q, t)) (ap (entry w.table0) e0 ∙ sym w.target)

-- After a successful `map` of one page, `virt_to_phys` sends every address of the page to the same
-- offset in the frame.
pub virt_to_phys-map_page :
    (pt va pa flags off : ℕ) (s t : Phys) (a : PageAllocator)
    → IsReady s a
    → HasTables s a pt va
    → va % 4096 ≡ 0
    → pa % 4096 ≡ 0
    → pa < 2 ^ 56
    → flags < 2 ^ 10
    → off < 4096
    → map_page pt va pa flags s ≡ (some tt, t)
    → virt_to_phys pt (va + off) t ≡ (some (pa + off), t)
virt_to_phys-map_page pt va pa flags off s t a r h av ap' sp fl lo e =
    let (p, u, ew, et) = map_page-some pt va pa flags s t e in
    let w = walk-Walked pt va p s u a r h ew in
    let (ok, frame) = leaf_entry pa flags ap' sp fl in
    let here : t.mem p ≡ pa_to_pte pa (bit_or flags pte_v) = rw (et, ==_refl p) refl in
    virt_to_phys-read pt va off p pa t (rw et (Walked-rewalk s u pt va off p _ w av lo))
      (ap is_valid here ∙ ok) (ap pte_to_pa here ∙ frame) av lo sp
