-- ===== src/Fs/Delete.antt =====
-- What `delete_dir_entry` of the file server changes, user/programs/fs-server/src/main.rs.
use nek_os.Base.{
  ℕ, zero, suc, ◌+◌, ◌*◌, ◌≤◌, ◌<◌, Bool, true, false, none, some, List, [], ◌∷◌, get_or, set, ◌==◌,
  Bool-cases, Option-cases, ◌≡◌, refl, sym, subst, ap, ◌⊎◌, inl, inr, arith,
}
use nek_os.Base.Bytes.{splice}
use nek_os.Fs.{
  Disk, Fat32Fs, block_size, ramdisk_size, offset_of, disk_read, disk_write, put_bytes,
  cluster_to_sector, spc, fat_next, link,
}
use nek_os.Fs.Dir.{entry_bytes, entry_size, entries_per_sector, no_lfn, same_name, entry_name}
use nek_os.Fs.Erase.{
  Cursor, Deletion, keep, absent, erased, delete_entry, delete_entries, delete_sectors,
  delete_clusters, delete_dir_entry, used_up, erase,
}
use nek_os.Fs.Partial

-- One byte of a sector.
set-splice : (xs : List ℕ) (i v : ℕ) → set xs i v ≡ splice xs i (v ∷ [])
unfolding splice
set-splice [] i v = refl
set-splice (x ∷ []) zero v = refl
set-splice (x ∷ y ∷ xs) zero v = refl
set-splice (x ∷ xs) (suc i) v = ap (◌∷◌ x) (set-splice xs i v)

-- What the scan of a sector came to.
abbrev Erases : List ℕ → Deletion → Type 0
Erases buf (keep c) = Unit {0}
Erases buf absent = Unit {0}
Erases buf (erased buf2) =
    (j : ℕ) × (j < entries_per_sector) × (buf2 ≡ set buf (j * entry_size) 0xE5)

delete_entry-Erases :
    (name : List ℕ) (sector i : ℕ) (buf : List ℕ) (c : Cursor)
    → i < entries_per_sector
    → Erases buf (delete_entry name sector i buf c)
unfolding delete_entry erase
delete_entry-Erases name sector i buf c h =
    let e = entry_bytes buf i in
    let on = Erases buf in
    let r = delete_entry name sector i buf c in
    elim (Bool-cases (get_or e 0 0 == 0)) [
      | inl h1 ↦ let q : r ≡ absent = rw (h1, delete_entry) refl in subst on (sym q) tt
      | inr h1 ↦ elim (Bool-cases (get_or e 0 0 == 0xE5)) [
        | inl h2 ↦
            let q : r ≡ keep (used_up c) = rw (h1, delete_entry, h2) refl in subst on (sym q) tt
        | inr h2 ↦ elim (Bool-cases (get_or e 11 0 == 0x0F)) [
          | inl h3 ↦ rw (h1, delete_entry, h2, h3) tt
          | inr h3 ↦ elim (Bool-cases (same_name (entry_name e c.lfn) name)) [
            | inl h4 ↦
                let q : r ≡ erased (set buf (i * entry_size) 0xE5) =
                  rw (h1, delete_entry, h2, h3, h4) refl in
                subst on (sym q) (i, h, refl)
            | inr h4 ↦
                let q : r ≡ keep (used_up c) = rw (h1, delete_entry, h2, h3, h4) refl in
                subst on (sym q) tt
          ]
        ]
      ]
    ]

after_entry :
    (buf : List ℕ) (k : Cursor → Deletion) (r : Deletion)
    → ((c : Cursor) → Erases buf (k c))
    → Erases buf r
    → Erases buf (elim r [ keep c ↦ k c | absent ↦ absent | erased b ↦ erased b ])
after_entry buf k (keep c) rest here = rest c
after_entry buf k absent rest here = tt
after_entry buf k (erased b) rest here = here

delete_entries-Erases :
    (n i : ℕ) (name : List ℕ) (sector : ℕ) (buf : List ℕ) (c : Cursor)
    → i + n ≤ entries_per_sector
    → Erases buf (delete_entries n i name sector buf c)
unfolding delete_entries
delete_entries-Erases zero i name sector buf c h = tt
delete_entries-Erases (suc n) i name sector buf c h =
    after_entry buf (delete_entries n (i + 1) name sector buf) (delete_entry name sector i buf c)
      (λ c2. delete_entries-Erases n (i + 1) name sector buf c2 (omega arith))
      (delete_entry-Erases name sector i buf c (omega arith))

-- What a deletion may do: nothing, or mark the first byte of one entry.
abbrev pub Marks : Disk → Bool → Disk → Type 0
Marks d ok e =
    ((ok ≡ false) × (e ≡ d))
    ⊎ ((ok ≡ true) × ((a : ℕ) × (a < ramdisk_size) × (e ≡ put_bytes a (0xE5 ∷ []) d)))

abbrev Goes : Disk → (Cursor ⊎ Bool) × Disk → Type 0
Goes d (inl c, e) = e ≡ d
Goes d (inr ok, e) = Marks d ok e

-- A marked block is written over the one that was read.
write_erased :
    (sector j : ℕ) (d : Disk) (buf : List ℕ)
    → disk_read sector block_size d ≡ some buf
    → j < entries_per_sector
    → (a : ℕ) × (a < ramdisk_size)
      × ((disk_write sector (set buf (j * entry_size) 0xE5) d).1 ≡ put_bytes a (0xE5 ∷ []) d)
write_erased sector j d buf e h =
    let (inside, same) = Partial.read_in sector d buf e in
    let wrote =
      Partial.disk_write-splice sector (j * entry_size) (0xE5 ∷ []) d buf e (omega arith) in
    (
      offset_of sector + j * entry_size,
      omega (arith, inside),
      rw (set-splice buf (j * entry_size) 0xE5, wrote) refl,
    )

abbrev sector_result : ℕ → ℕ → List ℕ → Disk → Deletion → (Cursor ⊎ Bool) × Disk
sector_result n sector name d r = elim r [
  | keep c ↦ delete_sectors n (sector + 1) name c d
  | absent ↦ (inr false, d)
  | erased buf2 ↦ (inr true, (disk_write sector buf2 d).1)
]

sector_result-Goes :
    (n sector : ℕ) (name : List ℕ) (d : Disk) (buf : List ℕ) (r : Deletion)
    → disk_read sector block_size d ≡ some buf
    → ((c : Cursor) → Goes d (delete_sectors n (sector + 1) name c d))
    → Erases buf r
    → Goes d (sector_result n sector name d r)
sector_result-Goes n sector name d buf (keep c) e rest here = rest c
sector_result-Goes n sector name d buf absent e rest here = inl (refl, refl)
sector_result-Goes n sector name d buf (erased buf2) e rest (j, l, same) =
    let (a, inside, wrote) = write_erased sector j d buf e l in
    inr (refl, (a, inside, rw same wrote))

delete_sectors-Goes :
    (n sector : ℕ) (name : List ℕ) (c : Cursor) (d : Disk)
    → Goes d (delete_sectors n sector name c d)
unfolding delete_sectors
delete_sectors-Goes zero sector name c d = refl
delete_sectors-Goes (suc n) sector name c d = elim (Option-cases (disk_read sector block_size d)) [
  | inl e ↦
      let q : delete_sectors (suc n) sector name c d ≡ (inr false, d) =
        rw (e, delete_sectors) refl in
      subst (Goes d) (sym q) (inl (refl, refl))
  | inr (buf, e) ↦
      let q : delete_sectors (suc n) sector name c d
          ≡ sector_result n sector name d (delete_entries entries_per_sector 0 name sector buf c) =
        rw (e, delete_sectors) refl in
      subst (Goes d) (sym q) (
        sector_result-Goes n sector name d buf
          (delete_entries entries_per_sector 0 name sector buf c) e
          (λ c2. delete_sectors-Goes n (sector + 1) name c2 d)
          (delete_entries-Erases entries_per_sector 0 name sector buf c (omega arith)))
]

abbrev cluster_result : ℕ → Fat32Fs → ℕ → List ℕ → (Cursor ⊎ Bool) × Disk → Bool × Disk
cluster_result fuel fs cluster name r = elim r.0 [
  | inr answer ↦ (answer, r.1)
  | inl c2 ↦ elim (link (fat_next fs cluster r.1)) [
    | none ↦ (false, r.1)
    | some n ↦ delete_clusters fuel fs n name c2 r.1
  ]
]

cluster_result-Marks :
    (fuel : ℕ) (fs : Fat32Fs) (cluster : ℕ) (name : List ℕ) (d : Disk) (r : (Cursor ⊎ Bool) × Disk)
    → Goes d r
    → ((n : ℕ) (c : Cursor) → let (ok, e) = delete_clusters fuel fs n name c d in Marks d ok e)
    → let (ok, e) = cluster_result fuel fs cluster name r in Marks d ok e
cluster_result-Marks fuel fs cluster name d (inr ok, e) here rest = here
cluster_result-Marks fuel fs cluster name d (inl c, e) here rest =
    elim (Option-cases (link (fat_next fs cluster e))) [
      | inl l ↦
          let q : cluster_result fuel fs cluster name (inl c, e) ≡ (false, e) =
            rw (l, cluster_result) refl in
          subst on (sym q) (inl (refl, here))
      | inr (n, l) ↦
          let q : cluster_result fuel fs cluster name (inl c, e)
              ≡ delete_clusters fuel fs n name c e =
            rw (l, cluster_result) refl in
          subst on (sym q)
            (subst (λ (g : Disk). on (delete_clusters fuel fs n name c g)) (sym here) (rest n c))
    ]
  where
    on : Bool × Disk → Type 0
    on r = Marks d r.0 r.1

delete_clusters-Marks :
    (fuel : ℕ) (fs : Fat32Fs) (cluster : ℕ) (name : List ℕ) (c : Cursor) (d : Disk)
    → let (ok, e) = delete_clusters fuel fs cluster name c d in Marks d ok e
unfolding delete_clusters
delete_clusters-Marks zero fs cluster name c d = inl (refl, refl)
delete_clusters-Marks (suc fuel) fs cluster name c d =
    cluster_result-Marks fuel fs cluster name d
      (delete_sectors (spc fs) (cluster_to_sector fs cluster) name c d)
      (delete_sectors-Goes (spc fs) (cluster_to_sector fs cluster) name c d)
      (λ n c2. delete_clusters-Marks fuel fs n name c2 d)

-- A deletion that answers `false` changes nothing. One that answers `true` writes 0xE5 to one byte of the
-- disk and changes no other.
pub delete_dir_entry_lem :
    (fuel : ℕ) (fs : Fat32Fs) (dir_cluster : ℕ) (name : List ℕ) (d : Disk)
    → let (ok, e) = delete_dir_entry fuel fs dir_cluster name d in Marks d ok e
unfolding delete_dir_entry
delete_dir_entry_lem fuel fs dir_cluster name d =
    delete_clusters-Marks fuel fs dir_cluster name
      (record { lfn = no_lfn; start_sector = 0; start_idx = 0 }) d
