-- ===== src/Fs/Change.antt =====
-- Changes of directory entries and chains of the file server, user/programs/fs-server/src/main.rs:
-- `update_dir_entry_size`, `free_chain` and `truncate_file`.
use nek_os.Base.{
  ℕ, zero, suc, ◌+◌, ◌*◌, Bool, true, false, none, some, List, ◌++◌, ◌⊎◌, inl, inr, get_or, ltb,
  ◌==◌, if◌then◌else◌, is_some,
}
use nek_os.Base.Bytes.{to_le_bytes, splice}
use nek_os.Fs.{
  Disk, Fat32Fs, block_size, disk_read, disk_write, cluster_to_sector, fat_next, fat_set, link, spc,
  fat32_eoc, fat32_free, zero_sectors,
}
use nek_os.Fs.Dir.{
  Lfn, no_lfn, put_lfn, entry_name, same_name, entry_bytes, entry_size, entries_per_sector,
}
use nek_os.Fs.Create.{cluster_hi, cluster_lo}

-- The new size and first cluster of the entry at `offset`.
unfoldable pub put_size : ℕ → ℕ → ℕ → List ℕ → List ℕ
unfolding splice to_le_bytes
put_size new_size new_cluster offset buf =
    splice (splice buf (offset + 20) (cluster_hi new_cluster)) (offset + 26)
      (cluster_lo new_cluster ++ to_le_bytes 4 new_size)

-- A sector so far: to go on with, or at the mark of the end.
pub data Scan (A : Type 0) : Type 0 where
  next : A → Scan A
  stop : A → Scan A

-- The long name, the sector and whether an entry of it has changed.
pub record Update : Type 0 where
  pub lfn : Lfn
  pub buf : List ℕ
  pub found : Bool

unfoldable pub update_entry : List ℕ → ℕ → ℕ → ℕ → Update → Scan Update
unfolding put_lfn entry_name same_name put_size
update_entry search new_size new_cluster i u =
    let e = entry_bytes u.buf i in
    if get_or e 0 0 == 0
    then stop u
    else if get_or e 0 0 == 0xE5
    then next (record u { lfn = record u.lfn { len = 0 } })
    else if get_or e 11 0 == 0x0F
    then next (record u { lfn = put_lfn e u.lfn })
    else if same_name (entry_name e u.lfn) search
    then next (record {
      lfn = record u.lfn { len = 0 };
      buf = put_size new_size new_cluster (i * entry_size) u.buf;
      found = true;
    })
    else next (record u { lfn = record u.lfn { len = 0 } })

unfoldable pub update_entries : ℕ → ℕ → List ℕ → ℕ → ℕ → Update → Scan Update
unfolding update_entry
update_entries zero i search new_size new_cluster u = next u
update_entries (suc n) i search new_size new_cluster u =
    elim (update_entry search new_size new_cluster i u) [
      | stop v ↦ stop v
      | next v ↦ update_entries n (i + 1) search new_size new_cluster v
    ]

-- The `n` sectors from `sector` on: an answer, or the long name to go on with.
unfoldable pub update_sectors : ℕ → ℕ → List ℕ → ℕ → ℕ → Lfn → Disk → (Lfn ⊎ Bool) × Disk
unfolding disk_read disk_write update_entries
update_sectors zero sector search new_size new_cluster l d = (inl l, d)
update_sectors (suc n) sector search new_size new_cluster l d =
    elim (disk_read sector block_size d) [
      | none ↦ (inr false, d)
      | some buf ↦
          elim (update_entries entries_per_sector 0 search new_size new_cluster
            (record { lfn = l; buf = buf; found = false })) [
              | stop v ↦ (inr v.found, d)
              | next v ↦ elim v.found [
                | true ↦ let (o, e) = disk_write sector v.buf d in (inr (is_some o), e)
                | false ↦ update_sectors n (sector + 1) search new_size new_cluster v.lfn d
              ]
            ]
    ]

unfoldable pub update_clusters : ℕ → Fat32Fs → ℕ → List ℕ → ℕ → ℕ → Lfn → Disk → Bool × Disk
unfolding update_sectors cluster_to_sector fat_next
update_clusters zero fs cluster search new_size new_cluster l d = (false, d)
update_clusters (suc fuel) fs cluster search new_size new_cluster l d =
    let (o, e) =
      update_sectors (spc fs) (cluster_to_sector fs cluster) search new_size new_cluster l d in
    elim o [
      | inr found ↦ (found, e)
      | inl l2 ↦ elim (link (fat_next fs cluster e)) [
        | none ↦ (false, e)
        | some c ↦ update_clusters fuel fs c search new_size new_cluster l2 e
      ]
    ]

unfoldable pub update_dir_entry_size : ℕ → Fat32Fs → ℕ → List ℕ → ℕ → ℕ → Disk → Bool × Disk
unfolding update_clusters
update_dir_entry_size fuel fs dir_cluster name new_size new_cluster =
    update_clusters fuel fs dir_cluster name new_size new_cluster no_lfn

-- The loop of `free_chain` with `count` clusters freed.
unfoldable pub free_from : ℕ → Fat32Fs → ℕ → ℕ → Disk → ℕ × Disk
unfolding fat_next fat_set
free_from zero fs cur count d = (count, d)
free_from (suc fuel) fs cur count d = elim (fat_next fs cur d) [
  | none ↦ (count, d)
  | some v ↦
      let e = (fat_set fs cur fat32_free d).1 in
      elim (link (some v)) [ none ↦ (count + 1, e) | some c ↦ free_from fuel fs c (count + 1) e ]
]

unfoldable pub free_chain : ℕ → Fat32Fs → ℕ → Disk → ℕ × Disk
unfolding free_from
free_chain fuel fs cluster d = if ltb cluster 2 then (0, d) else free_from fuel fs cluster 0 d

-- The clusters behind the first one are given back.
unfoldable pub free_rest : ℕ → Fat32Fs → ℕ → Disk → Disk
unfolding free_chain fat_next
free_rest fuel fs cluster d = elim (link (fat_next fs cluster d)) [
  | none ↦ d
  | some c ↦ (free_chain fuel fs c d).1
]

unfoldable pub truncate_file : ℕ → Fat32Fs → ℕ → ℕ → List ℕ → Disk → Bool × Disk
unfolding free_rest fat_set zero_sectors cluster_to_sector update_dir_entry_size
truncate_file fuel fs cluster dir_cluster name d =
    if ltb cluster 2
    then (true, d)
    else (let e = (fat_set fs cluster fat32_eoc (free_rest fuel fs cluster d)).1 in
        let g = (zero_sectors (spc fs) (cluster_to_sector fs cluster) e).1 in
        update_dir_entry_size fuel fs dir_cluster name 0 cluster g)
