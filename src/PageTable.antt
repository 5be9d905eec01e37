-- ===== src/PageTable.antt =====
-- Sv39 page tables, src/kernel/pgtable.rs. Physical memory is a function from the addresses of the
-- aligned 64-bit words to their values; `pages` is the allocator's static.
use mathlib.Core.Option
use nek_os.Base.{
  ℕ, zero, suc, ◌+◌, ◌-◌, ◌*◌, ◌/◌, ◌%◌, ◌^◌, bit_and, bit_or, Bool, true, false, ◌||◌, ◌&&◌,
  Option, none, some, List, [], ◌∷◌, ltb, leb, ◌==◌, if◌then◌else◌, M, pure, fail, ◌>>=◌, ◌>>◌,
  each,
}
use nek_os.Base.Words.{add_usize}
use nek_os.Page.{PageAllocator, page_size, alloc_static, free_static}
pub mod Pte
pub mod Walk
pub mod Translate

pub record Phys : Type 0 where
  pub mem : ℕ → ℕ
  pub pages : Option PageAllocator

abbrev pub write_word : (ℕ → ℕ) → ℕ → ℕ → ℕ → ℕ
write_word mem a v b = if a == b then v else mem b

-- src/arch/riscv/mod.rs
abbrev pub page_shift : ℕ
page_shift = 12

abbrev pub pte_v : ℕ
pte_v = 1

abbrev pub pte_r : ℕ
pte_r = 2

abbrev pub pte_w : ℕ
pte_w = 4

abbrev pub pte_x : ℕ
pte_x = 8

abbrev pub pte_u : ℕ
pte_u = 16

-- `page::alloc` and `page::free` on the machine's memory.
abbrev pub alloc_page : M Phys ℕ
alloc_page s = let (p, a) = alloc_static s.pages in (p, record s { pages = a })

abbrev pub free_page : ℕ → Phys → Phys
free_page addr s = record s { pages = free_static addr s.pages }

-- `PageTable::clear`: the 512 entries of the table at `pt`.
abbrev pub clear : ℕ → Phys → Phys
clear pt s = record s { mem = λ a. if leb pt a && ltb a (pt + page_size) then 0 else s.mem a }

unfoldable pub create : M Phys ℕ
create = do addr ← alloc_page; λ s. (some addr, clear addr s)

-- The address of `entries[index]` of the table at `pt`.
abbrev pub entry : ℕ → ℕ → ℕ
entry pt index = pt + index * 8

unfoldable pub pte_to_pa : ℕ → ℕ
pte_to_pa pte = bit_and (pte / 2 ^ 10) 0x0FFF_FFFF_FFFF * 2 ^ page_shift

unfoldable pub pa_to_pte : ℕ → ℕ → ℕ
pa_to_pte pa flags = bit_or (pa / 2 ^ page_shift * 2 ^ 10 % 2 ^ 64) flags

abbrev pub is_valid : ℕ → Bool
is_valid pte = if bit_and pte pte_v == 0 then false else true

-- `pte & (PTE_R | PTE_W | PTE_X) != 0`
abbrev pub is_leaf : ℕ → Bool
is_leaf pte = if bit_and pte 14 == 0 then false else true

-- `VPN[level]`
abbrev pub vpn : ℕ → ℕ → ℕ
vpn va level = bit_and (va / 2 ^ (12 + 9 * level)) 0x1FF

-- One level of `walk`: the next table below the entry `index` of the table at `pt`.
unfoldable pub descend : Bool → ℕ → ℕ → M Phys ℕ
descend can_alloc pt index s =
    let pte = s.mem (entry pt index) in
    if is_valid pte
    then (if is_leaf pte then (none, s) else (some (pte_to_pa pte), s))
    else (if can_alloc
        then (do
          new_pt ← create
          λ t. (
            some new_pt,
            record t { mem = write_word t.mem (entry pt index) (pa_to_pte new_pt pte_v) },
          ))
            s
        else (none, s))

-- `walk`: the address of the last-level entry of `va`.
unfoldable pub walk : ℕ → ℕ → Bool → M Phys ℕ
walk pt va can_alloc = do
  level1 ← descend can_alloc pt (vpn va 2)
  level0 ← descend can_alloc level1 (vpn va 1)
  pure (entry level0 (vpn va 0))

-- The body of `map`'s loop.
unfoldable pub map_page : ℕ → ℕ → ℕ → ℕ → M Phys (Unit {0})
map_page pt va pa flags = do
  pte ← walk pt va true
  λ s.
      if is_valid (s.mem pte)
      then (none, s)
      else (some tt, record s { mem = write_word s.mem pte (pa_to_pte pa (bit_or flags pte_v)) })

unfoldable pub map : ℕ → ℕ → ℕ → ℕ → ℕ → M Phys (Unit {0})
unfolding each
map pt va pa size flags =
    if size == 0
      || (if va % page_size == 0 then false else true)
      || (if pa % page_size == 0 then false else true)
    then fail
    else each (size / page_size) 0
        λ i. map_page pt (add_usize va (i * page_size)) (add_usize pa (i * page_size)) flags

unfoldable pub set_flags : ℕ → ℕ → ℕ → ℕ → M Phys (Unit {0})
unfolding each
set_flags pt va size flags =
    if size == 0
      || (if va % page_size == 0 then false else true)
      || (if size % page_size == 0 then false else true)
    then fail
    else each (size / page_size) 0 λ i. do
      pte ← walk pt (add_usize va (i * page_size)) false
      λ s.
          if is_valid (s.mem pte)
          then (
            some tt,
            record s {
              mem = write_word s.mem pte (pa_to_pte (pte_to_pa (s.mem pte)) (bit_or flags pte_v));
            },
          )
          else (none, s)

-- The body of `unmap`'s loop; what is not mapped is skipped.
unfoldable pub unmap_page : ℕ → ℕ → Bool → M Phys (Unit {0})
unmap_page pt va release = do
  pte ← walk pt va false
  λ s.
      if is_valid (s.mem pte)
      then (let t = if release then free_page (pte_to_pa (s.mem pte)) s else s in
          (some tt, record t { mem = write_word t.mem pte 0 }))
      else (some tt, s)

unfoldable pub unmap : ℕ → ℕ → ℕ → Bool → M Phys (Unit {0})
unfolding each
unmap pt va size release =
    if size == 0 || (if va % page_size == 0 then false else true)
    then fail
    else each (size / page_size) 0 λ i. unmap_page pt (add_usize va (i * page_size)) release

unfoldable pub virt_to_phys : ℕ → ℕ → M Phys ℕ
virt_to_phys pt va = do
  pte ← walk pt va false
  λ s.
      if is_valid (s.mem pte)
      then (some (add_usize (pte_to_pa (s.mem pte)) (bit_and va (page_size - 1))), s)
      else (none, s)

-- `free_walk` over `n` entries of the table at `pt` from `index` on; `free_child` frees what is below
-- a table.
unfoldable pub free_entries : (ℕ → Phys → Phys) → ℕ → ℕ → ℕ → Phys → Phys
free_entries free_child zero index pt s = s
free_entries free_child (suc n) index pt s =
    let pte = s.mem (entry pt index) in
    let t : Phys =
      if is_valid pte && not_leaf pte
      then free_page (pte_to_pa pte) (free_child (pte_to_pa pte) s)
      else s in
    free_entries free_child n (index + 1) pt t
  where
    not_leaf : ℕ → Bool
    not_leaf pte = if is_leaf pte then false else true

-- `free_walk`; `levels` bounds the depth of the source's recursion.
unfoldable pub free_walk : ℕ → ℕ → Phys → Phys
unfolding free_entries
free_walk zero pt s = s
free_walk (suc levels) pt s = free_entries (free_walk levels) 512 0 pt s

-- `free`: a Sv39 tree has three levels of tables.
unfoldable pub free : ℕ → Phys → Phys
unfolding free_walk
free pt s = free_page pt (free_walk 3 pt s)
