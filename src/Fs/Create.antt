-- ===== src/Fs/Create.antt =====
-- New directory entries of the file server, user/programs/fs-server/src/main.rs. The encoding in
-- UTF-16 is `str::encode_utf16`, a parameter.
use nek_os.Base.{
  ℕ, zero, suc, ◌+◌, ◌*◌, ◌/◌, ◌%◌, bit_or, Bool, true, false, ◌||◌, Option, none, some, List, [],
  ◌∷◌, ◌++◌, length, get_or, take, replicate, ltb, leb, ◌==◌, if◌then◌else◌, M, pure, ◌>>=◌, ◌>>◌,
}
use nek_os.Base.Bytes.{to_le_bytes, splice}
use nek_os.Fs.{
  Disk, Fat32Fs, block_size, disk_read, disk_write, cluster_to_sector, spc, alloc_cluster,
}
use nek_os.Fs.Dir.{entry_size, entries_per_sector}
use nek_os.Fs.Path.{attr_directory}
use nek_os.Fs.File.{extend}
use nek_os.Fs.ShortName.{lfn_checksum, make_short_name}

-- The unit at `i` of a long name: the name, a terminator, then filling.
abbrev pub unit_at : List ℕ → ℕ → ℕ
unit_at chars i =
    if ltb i (length chars) then get_or chars i 0 else if i == length chars then 0 else 0xFFFF

-- The bytes of the `n` units from the `i`-th on.
unfoldable pub unit_bytes : ℕ → ℕ → List ℕ → List ℕ
unfolding to_le_bytes
unit_bytes zero i chars = []
unit_bytes (suc n) i chars = to_le_bytes 2 (unit_at chars i) ++ unit_bytes n (i + 1) chars

-- One long name entry; two of its bytes stay as they were.
unfoldable pub put_lfn_entry : ℕ → ℕ → List ℕ → ℕ → ℕ → List ℕ → List ℕ
unfolding unit_bytes splice
put_lfn_entry lfn_idx lfn_count chars checksum offset buf =
    let flag = if lfn_idx + 1 == lfn_count then bit_or (lfn_idx + 1) 0x40 else lfn_idx + 1 in
    let char_base = lfn_idx * 13 in
    splice
      (splice buf offset (
        flag ∷ unit_bytes 5 char_base chars
        ++ (0x0F ∷ 0 ∷ checksum ∷ unit_bytes 6 (char_base + 5) chars)))
      (offset + 28) (unit_bytes 2 (char_base + 11) chars)

-- The entries of indices below `n`, the last one first, from entry `i` of the sector on.
unfoldable pub put_lfn_entries : ℕ → ℕ → List ℕ → ℕ → ℕ → List ℕ → List ℕ
unfolding put_lfn_entry
put_lfn_entries zero lfn_count chars checksum i buf = buf
put_lfn_entries (suc n) lfn_count chars checksum i buf =
    put_lfn_entries n lfn_count chars checksum (i + 1)
      (put_lfn_entry n lfn_count chars checksum (i * entry_size) buf)

-- The high half of a cluster number, and its low half.
abbrev pub cluster_hi : ℕ → List ℕ
cluster_hi c = c / 65536 % 256 ∷ c / 16777216 % 256 ∷ []

abbrev pub cluster_lo : ℕ → List ℕ
cluster_lo c = c % 256 ∷ c / 256 % 256 ∷ []

unfoldable pub put_short_entry : List ℕ → ℕ → ℕ → ℕ → ℕ → List ℕ → List ℕ
unfolding splice to_le_bytes
put_short_entry short attr first_cluster file_size offset buf =
    splice
      (splice (splice buf offset (short ++ attr ∷ [])) (offset + 20) (cluster_hi first_cluster))
      (offset + 26) (cluster_lo first_cluster ++ to_le_bytes 4 file_size)

abbrev pub is_unused : ℕ → Bool
is_unused first = first == 0 || first == 0xE5

-- The start of the first run of `total` unused entries, when the `count` entries before `i`, from
-- `start` on, are unused.
unfoldable pub find_run : ℕ → ℕ → ℕ → ℕ → ℕ → List ℕ → Option ℕ
find_run zero i start count total buf = none
find_run (suc n) i start count total buf =
    let first = if count == 0 then i else start in
    elim (is_unused (get_or buf (i * entry_size) 0)) [
      | true ↦ elim (leb total (count + 1)) [
        | true ↦ some first
        | false ↦ find_run n (i + 1) first (count + 1) total buf
      ]
      | false ↦ find_run n (i + 1) 0 0 total buf
    ]

-- What is put into a directory: the name of eleven bytes, the units of the long name, and the rest.
pub record NewEntry : Type 0 where
  pub short : List ℕ
  pub chars : List ℕ
  pub attr : ℕ
  pub first_cluster : ℕ
  pub file_size : ℕ

abbrev pub lfn_count : NewEntry → ℕ
lfn_count e = if leb (length e.chars) 13 then 0 else (length e.chars + 12) / 13

-- The entries, from entry `start` of a sector on.
unfoldable pub put_entries : NewEntry → ℕ → List ℕ → List ℕ
unfolding put_lfn_entries put_short_entry lfn_checksum
put_entries e start buf =
    put_short_entry e.short e.attr e.first_cluster e.file_size ((start + lfn_count e) * entry_size)
      (put_lfn_entries (lfn_count e) (lfn_count e) e.chars (lfn_checksum e.short) start buf)

-- What a search for a place came to: an answer, or none in these sectors.
pub data Placed : Type 0 where
  answer : Option (ℕ × ℕ) → Disk → Placed
  no_room : Placed

unfoldable pub place_in_sectors : ℕ → ℕ → NewEntry → Disk → Placed
unfolding disk_read find_run put_entries disk_write
place_in_sectors zero sector e d = no_room
place_in_sectors (suc n) sector e d = elim (disk_read sector block_size d) [
  | none ↦ answer none d
  | some buf ↦ elim (find_run entries_per_sector 0 0 0 (lfn_count e + 1) buf) [
    | none ↦ place_in_sectors n (sector + 1) e d
    | some start ↦
        let (o, g) = disk_write sector (put_entries e start buf) d in
        answer (elim o [ none ↦ none | some u ↦ some (sector, (start + lfn_count e) * entry_size) ])
          g
  ]
]

unfoldable pub place : ℕ → Fat32Fs → ℕ → NewEntry → M Disk (ℕ × ℕ)
unfolding place_in_sectors extend cluster_to_sector
place zero fs cluster e d = (none, d)
place (suc fuel) fs cluster e d =
    elim (place_in_sectors (spc fs) (cluster_to_sector fs cluster) e d) [
      | answer o g ↦ (o, g)
      | no_room ↦
          let (o, g) = extend fs cluster d in
          elim o [ none ↦ (none, g) | some next ↦ place fuel fs next e g ]
    ]

module _ (encode_utf16 : List ℕ → List ℕ) where
  -- The sector of the new entry and its offset there.
  unfoldable pub create_dir_entry : ℕ → Fat32Fs → ℕ → List ℕ → ℕ → ℕ → ℕ → M Disk (ℕ × ℕ)
  unfolding make_short_name place
  create_dir_entry fuel fs dir_cluster long_name attr first_cluster file_size d =
      let (name, ext) = make_short_name fuel fs long_name dir_cluster d in
      place fuel fs dir_cluster
        (record {
          short = name ++ ext;
          chars = take 256 (encode_utf16 long_name);
          attr = attr;
          first_cluster = first_cluster;
          file_size = file_size;
        })
        d

-- The first 32 bytes of an entry without a size.
abbrev dot_entry : List ℕ → ℕ → List ℕ
dot_entry name cluster =
    name
    ++ (attr_directory ∷ replicate 8 0
        ++ (cluster_hi cluster ++ (replicate 4 0 ++ (cluster_lo cluster ++ replicate 4 0))))

-- The block of a new directory.
abbrev pub dir_block : ℕ → ℕ → List ℕ
dir_block cluster parent =
    dot_entry (b'.' ∷ replicate 10 b' ') cluster
    ++ (dot_entry (b'.' ∷ b'.' ∷ replicate 9 b' ') parent ++ replicate 448 0)

unfoldable pub create_empty_dir : Fat32Fs → ℕ → M Disk ℕ
unfolding alloc_cluster cluster_to_sector disk_write
create_empty_dir fs parent_cluster = do
  cluster ← alloc_cluster fs
  disk_write (cluster_to_sector fs cluster) (dir_block cluster parent_cluster)
  pure cluster
