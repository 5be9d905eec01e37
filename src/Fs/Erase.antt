-- ===== src/Fs/Erase.antt =====
-- `delete_dir_entry` of the file server, user/programs/fs-server/src/main.rs.
use nek_os.Base.{
  ℕ, zero, suc, ◌+◌, ◌-◌, ◌*◌, Bool, true, false, ◌&&◌, none, some, List, ◌⊎◌, inl, inr, get_or,
  set, ltb, ◌==◌, if◌then◌else◌,
}
use nek_os.Fs.{
  Disk, Fat32Fs, block_size, disk_read, disk_write, cluster_to_sector, fat_next, link, spc,
}
use nek_os.Fs.Dir.{
  Lfn, no_lfn, put_lfn, entry_name, same_name, entry_bytes, entry_size, entries_per_sector,
}

-- The long name, and where its entries start: `lfn_start_sector` and `lfn_start_idx`.
pub record Cursor : Type 0 where
  pub lfn : Lfn
  pub start_sector : ℕ
  pub start_idx : ℕ

-- The first bytes of the `n` entries from the `i`-th on.
unfoldable pub erase_entries : ℕ → ℕ → List ℕ → List ℕ
erase_entries zero i buf = buf
erase_entries (suc n) i buf = erase_entries n (i + 1) (set buf (i * entry_size) 0xE5)

-- The sector without its entry `i`, whose name is used up by then, and without its long name.
unfoldable pub erase : ℕ → ℕ → Cursor → List ℕ → List ℕ
unfolding erase_entries
erase sector i c buf =
    if ltb 0 c.lfn.len && c.start_sector == sector
    then erase_entries (i - c.start_idx) c.start_idx (set buf (i * entry_size) 0xE5)
    else set buf (i * entry_size) 0xE5

abbrev pub used_up : Cursor → Cursor
used_up c = record c { lfn = record c.lfn { len = 0 } }

-- One entry: the sector to write in an answer, or the cursor to go on with.
pub data Deletion : Type 0 where
  keep : Cursor → Deletion
  absent : Deletion
  erased : List ℕ → Deletion

unfoldable pub delete_entry : List ℕ → ℕ → ℕ → List ℕ → Cursor → Deletion
unfolding put_lfn entry_name same_name erase
delete_entry search sector i buf c =
    let e = entry_bytes buf i in
    if get_or e 0 0 == 0
    then absent
    else if get_or e 0 0 == 0xE5
    then keep (used_up c)
    else if get_or e 11 0 == 0x0F
    then keep (record {
      lfn = put_lfn e c.lfn;
      start_sector = if c.lfn.len == 0 then sector else c.start_sector;
      start_idx = if c.lfn.len == 0 then i else c.start_idx;
    })
    else if same_name (entry_name e c.lfn) search
    then erased (erase sector i (used_up c) buf)
    else keep (used_up c)

unfoldable pub delete_entries : ℕ → ℕ → List ℕ → ℕ → List ℕ → Cursor → Deletion
unfolding delete_entry
delete_entries zero i search sector buf c = keep c
delete_entries (suc n) i search sector buf c = elim (delete_entry search sector i buf c) [
  | keep c2 ↦ delete_entries n (i + 1) search sector buf c2
  | absent ↦ absent
  | erased buf2 ↦ erased buf2
]

unfoldable pub delete_sectors : ℕ → ℕ → List ℕ → Cursor → Disk → (Cursor ⊎ Bool) × Disk
unfolding delete_entries disk_read disk_write
delete_sectors zero sector search c d = (inl c, d)
delete_sectors (suc n) sector search c d = elim (disk_read sector block_size d) [
  | none ↦ (inr false, d)
  | some buf ↦ elim (delete_entries entries_per_sector 0 search sector buf c) [
    | keep c2 ↦ delete_sectors n (sector + 1) search c2 d
    | absent ↦ (inr false, d)
    | erased buf2 ↦ (inr true, (disk_write sector buf2 d).1)
  ]
]

unfoldable pub delete_clusters : ℕ → Fat32Fs → ℕ → List ℕ → Cursor → Disk → Bool × Disk
unfolding delete_sectors cluster_to_sector fat_next
delete_clusters zero fs cluster search c d = (false, d)
delete_clusters (suc fuel) fs cluster search c d =
    let (o, e) = delete_sectors (spc fs) (cluster_to_sector fs cluster) search c d in
    elim o [
      | inr answer ↦ (answer, e)
      | inl c2 ↦ elim (link (fat_next fs cluster e)) [
        | none ↦ (false, e)
        | some n ↦ delete_clusters fuel fs n search c2 e
      ]
    ]

unfoldable pub delete_dir_entry : ℕ → Fat32Fs → ℕ → List ℕ → Disk → Bool × Disk
unfolding delete_clusters
delete_dir_entry fuel fs dir_cluster name =
    delete_clusters fuel fs dir_cluster name
      (record { lfn = no_lfn; start_sector = 0; start_idx = 0 })
