-- ===== src/Fs/Mark.antt =====
-- `update_dir_entry_size` of the file server, user/programs/fs-server/src/main.rs, in a sector that
-- holds the mark of the end of the directory.
use nek_os.Base.{
  ltb, ℕ, zero, suc, ◌+◌, ◌*◌, ◌≤◌, ◌<◌, Bool, false, some, List, [], ◌∷◌, ◌++◌, take, drop, get_or,
  ◌==◌, Bool-cases, ◌≡◌, ◌≢◌, refl, sym, subst, ◌-◌, ap, inl, inr, arith, ◌∙◌,
}
use nek_os.Base.Bytes
use nek_os.Base.Bytes.{splice, to_le_bytes}
use nek_os.Fs.{Disk, Fat32Fs, block_size, disk_read, cluster_to_sector, spc}
use nek_os.Fs.Dir.{entry_bytes, entry_size, entries_per_sector, no_lfn, same_name, entry_name}
use nek_os.Fs.Create.{cluster_hi, cluster_lo}
use nek_os.Fs.Change.{
  Update, next, stop, put_size, update_entry, update_entries, update_sectors, update_clusters,
  update_dir_entry_size,
}

pub get_or-drop : (xs : List ℕ) (i j : ℕ) → get_or (drop i xs) j 0 ≡ get_or xs (i + j) 0
get_or-drop xs zero j = ap (λ k. get_or xs k 0) (omega arith)
get_or-drop [] (suc i) j = refl
get_or-drop (x ∷ xs) (suc i) j =
    let e : suc i + j ≡ suc (i + j) = omega arith in rw e (get_or-drop xs i j)

pub get_or-take : (xs : List ℕ) (n j : ℕ) → j < n → get_or (take n xs) j 0 ≡ get_or xs j 0
get_or-take xs zero j h = absurd (omega arith)
get_or-take [] (suc n) j h = refl
get_or-take (x ∷ xs) (suc n) zero h = refl
get_or-take (x ∷ xs) (suc n) (suc j) h = get_or-take xs n j (omega arith)

-- The byte at `j` of an entry.
pub get_or-entry_bytes :
    (buf : List ℕ) (i j : ℕ)
    → j < entry_size
    → get_or (entry_bytes buf i) j 0 ≡ get_or buf (i * entry_size + j) 0
get_or-entry_bytes buf i j h =
    get_or-take (drop (i * entry_size) buf) entry_size j h ∙ get_or-drop buf (i * entry_size) j

-- The first byte of an entry is none of those that a new size and cluster take.
put_size-first :
    (new_size new_cluster i j : ℕ) (buf : List ℕ)
    → get_or (put_size new_size new_cluster (i * entry_size) buf) (j * entry_size) 0
      ≡ get_or buf (j * entry_size) 0
unfolding put_size
put_size-first new_size new_cluster i j buf = elim (Bool-cases (ltb i j)) [
  | inl h ↦
      rw
        (
          Bytes.get_or-splice_behind _ (i * entry_size + 26)
              (cluster_lo new_cluster ++ to_le_bytes 4 new_size) (j * entry_size) (ground arith),
          Bytes.get_or-splice_behind buf (i * entry_size + 20) (cluster_hi new_cluster)
              (j * entry_size) (ground arith),
        )
        refl
  | inr h ↦
      rw
        (
          Bytes.get_or-splice_before _ (i * entry_size + 26)
              (cluster_lo new_cluster ++ to_le_bytes 4 new_size) (j * entry_size) (ground arith),
          Bytes.get_or-splice_before buf (i * entry_size + 20) (cluster_hi new_cluster)
              (j * entry_size) (ground arith),
        )
        refl
]

-- One entry that is no mark leaves the marks of the others.
update_entry-next :
    (search : List ℕ) (new_size new_cluster i : ℕ) (u : Update)
    → (get_or (entry_bytes u.buf i) 0 0 == 0) ≡ false
    → (v : Update) × (update_entry search new_size new_cluster i u ≡ next v)
      × ((j : ℕ) → get_or v.buf (j * entry_size) 0 ≡ get_or u.buf (j * entry_size) 0)
unfolding update_entry
update_entry-next search new_size new_cluster i u h =
    let e = entry_bytes u.buf i in
    elim (Bool-cases (get_or e 0 0 == 0xE5)) [
      | inl h2 ↦ rw (h, update_entry, h2) (_, refl, λ j. refl)
      | inr h2 ↦ elim (Bool-cases (get_or e 11 0 == 0x0F)) [
        | inl h3 ↦ rw (h, update_entry, h2, h3) (_, refl, λ j. refl)
        | inr h3 ↦ elim (Bool-cases (same_name (entry_name e u.lfn) search)) [
          | inl h4 ↦
              rw (h, update_entry, h2, h3, h4)
                (_, refl, λ j. put_size-first new_size new_cluster i j u.buf)
          | inr h4 ↦ rw (h, update_entry, h2, h3, h4) (_, refl, λ j. refl)
        ]
      ]
    ]

-- The scan of the entries from `i` on stops at the first mark.
update_entries-stop :
    (n i j : ℕ) (search : List ℕ) (new_size new_cluster : ℕ) (u : Update)
    → i ≤ j
    → j < i + n
    → get_or u.buf (j * entry_size) 0 ≡ 0
    → (v : Update) × (update_entries n i search new_size new_cluster u ≡ stop v)
unfolding update_entries
update_entries-stop zero i j search new_size new_cluster u l h m = absurd (omega arith)
update_entries-stop (suc n) i j search new_size new_cluster u l h m =
    let first = get_or-entry_bytes u.buf i 0 (omega arith) in
    elim (Bool-cases (get_or (entry_bytes u.buf i) 0 0 == 0)) [
      | inl z ↦ rw (z, update_entries) (u, refl)
      | inr z ↦
          let (v, e, same) = update_entry-next search new_size new_cluster i u z in
          let apart : i ≢ j = λ k. ne u i j z m k in
          rw (e, update_entries)
            (update_entries-stop n (i + 1) j search new_size new_cluster v (omega arith)
              (omega arith) (same j ∙ m))
    ]
  where
    ne :
        (u : Update) (i j : ℕ)
        → (get_or (entry_bytes u.buf i) 0 0 == 0) ≡ false
        → get_or u.buf (j * entry_size) 0 ≡ 0
        → i ≢ j
    ne u i j z m k =
        let there : i * entry_size + 0 ≡ j * entry_size = omega (arith, k) in
        let e : get_or (entry_bytes u.buf i) 0 0 ≡ 0 =
          get_or-entry_bytes u.buf i 0 (omega arith) ∙ ap (λ x. get_or u.buf x 0) there ∙ m in
        absurd (ground arith)

update_sectors-stop :
    (n sector i : ℕ) (name : List ℕ) (new_size new_cluster : ℕ) (d : Disk) (buf : List ℕ)
    → disk_read sector block_size d ≡ some buf
    → i < entries_per_sector
    → get_or buf (i * entry_size) 0 ≡ 0
    → (found : Bool) × (update_sectors (suc n) sector name new_size new_cluster no_lfn d
        ≡ (inr found, d))
unfolding update_sectors
update_sectors-stop n sector i name new_size new_cluster d buf e h m =
    let u : Update = record { lfn = no_lfn; buf = buf; found = false } in
    let (v, p) =
      update_entries-stop entries_per_sector 0 i name new_size new_cluster u (omega arith)
        (omega arith) m in
    (v.found, rw (e, update_sectors, p) refl)

-- In a directory whose first sector holds the mark of its end, as that of every directory with less than
-- a sector of entries, `update_dir_entry_size` changes nothing on the disk, whether it finds the name or
-- not.
pub update_dir_entry_size-stop :
    (fuel : ℕ) (fs : Fat32Fs) (dir_cluster i : ℕ) (name : List ℕ) (new_size new_cluster : ℕ)
    (d : Disk) (buf : List ℕ)
    → 0 < spc fs
    → disk_read (cluster_to_sector fs dir_cluster) block_size d ≡ some buf
    → i < entries_per_sector
    → get_or buf (i * entry_size) 0 ≡ 0
    → (update_dir_entry_size fuel fs dir_cluster name new_size new_cluster d).1 ≡ d
unfolding update_dir_entry_size update_clusters
update_dir_entry_size-stop zero fs dir_cluster i name new_size new_cluster d buf k e h m = refl
update_dir_entry_size-stop (suc fuel) fs dir_cluster i name new_size new_cluster d buf k e h m =
    let one : spc fs ≡ suc (spc fs - 1) = omega arith in
    let (found, p) =
      update_sectors-stop (spc fs - 1) (cluster_to_sector fs dir_cluster) i name new_size
        new_cluster d buf e h m in
    let q : update_sectors (spc fs) (cluster_to_sector fs dir_cluster) name new_size new_cluster
          no_lfn d
        ≡ (inr found, d) =
      subst
        (λ (n : ℕ).
          update_sectors n (cluster_to_sector fs dir_cluster) name new_size new_cluster no_lfn d
          ≡ (inr found, d))
        (sym one) p in
    rw (q, update_clusters, q) refl
