-- ===== src/Fs/Dir.antt =====
-- Directories of the file server, user/programs/fs-server/src/main.rs: entries, long names, and the
-- walk that hands each entry with its name to a callback, here a function on an accumulated value.
use nek_os.Base.{
  ℕ, zero, suc, ◌+◌, ◌-◌, ◌*◌, max, bit_and, Bool, true, false, ◌&&◌, ◌||◌, Option, none, some,
  List, [], ◌∷◌, ◌++◌, get_or, take, drop, ltb, leb, ◌==◌, if◌then◌else◌, replicate,
}
use nek_os.Base.Bytes.{le_at, splice}
use nek_os.Fs.{Disk, Fat32Fs, block_size, disk_read, cluster_to_sector, fat_next, link, spc}

-- The fields of `DirEntry` that are read.
pub record DirEntry : Type 0 where
  pub name : List ℕ
  pub ext : List ℕ
  pub attr : ℕ
  pub first_cluster_hi : ℕ
  pub first_cluster_lo : ℕ
  pub file_size : ℕ

abbrev pub entry_size : ℕ
entry_size = 32

abbrev pub entries_per_sector : ℕ
entries_per_sector = 16

-- `buf[i * 32..(i + 1) * 32]`
abbrev pub entry_bytes : List ℕ → ℕ → List ℕ
entry_bytes buf i = take entry_size (drop (i * entry_size) buf)

unfoldable pub read_dir_entry : List ℕ → DirEntry
unfolding le_at
read_dir_entry e = record {
  name = take 8 e;
  ext = take 3 (drop 8 e);
  attr = le_at 1 11 e;
  first_cluster_hi = le_at 2 20 e;
  first_cluster_lo = le_at 2 26 e;
  file_size = le_at 4 28 e;
}

abbrev pub first_cluster : DirEntry → ℕ
first_cluster e = e.first_cluster_hi * 65536 + e.first_cluster_lo

-- `lfn_buf` and `lfn_len`
pub record Lfn : Type 0 where
  pub buf : List ℕ
  pub len : ℕ

abbrev pub no_lfn : Lfn
no_lfn = record { buf = replicate 256 0; len = 0 }

-- The `n` units of 16 bits from `offset` on.
unfoldable pub units : ℕ → ℕ → List ℕ → List ℕ
unfolding le_at
units zero offset e = []
units (suc n) offset e = le_at 2 offset e ∷ units n (offset + 2) e

-- A long name entry: its 13 units go to the place that its order names.
unfoldable pub put_lfn : List ℕ → Lfn → Lfn
unfolding units splice
put_lfn e l =
    let base = (bit_and (get_or e 0 0) 0x3F - 1) * 13 in
    if ltb (bit_and (get_or e 0 0) 0x3F - 1) 20
    then record {
      buf =
          if leb (base + 13) 256
          then splice l.buf base (units 5 1 e ++ units 6 14 e ++ units 2 28 e)
          else l.buf;
      len = max l.len (base + 13);
    }
    else l

-- The name in the units up to a terminator; a unit that is not ASCII is left out. Where an entry of order
-- 20 makes the name longer than the 256 units and no terminator stands among these, the source ends with
-- an index out of bounds.
unfoldable pub ascii_units : List ℕ → List ℕ
ascii_units [] = []
ascii_units (u ∷ us) = elim (u == 0 || u == 0xFFFF) [
  | true ↦ []
  | false ↦ if ltb u 0x80 then u ∷ ascii_units us else ascii_units us
]

unfoldable pub until_space : List ℕ → List ℕ
until_space [] = []
until_space (b ∷ bs) = if b == b' ' then [] else b ∷ until_space bs

-- The name `8.3`.
unfoldable pub short_name : List ℕ → List ℕ
unfolding until_space
short_name e =
    until_space (take 8 e)
    ++ (if get_or e 8 0 == b' ' then [] else b'.' ∷ until_space (take 3 (drop 8 e)))

unfoldable pub entry_name : List ℕ → Lfn → List ℕ
unfolding ascii_units short_name
entry_name e l = if ltb 0 l.len then ascii_units (take l.len l.buf) else short_name e

-- A walk so far: the long name gathered, and the value of the callback's captures.
pub data Walk (A : Type 0) : Type 0 where
  more : Lfn → A → Walk A
  ended : A → Walk A
  failed : A → Walk A

abbrev pub result : {A : Type 0} → Walk A → Bool × A
result (more l a) = (false, a)
result (ended a) = (true, a)
result (failed a) = (false, a)

-- The rest of a walk that has not come to its end.
abbrev pub and_on : {A : Type 0} → Walk A → (Lfn → A → Walk A) → Walk A
and_on (more l a) rest = rest l a
and_on (ended a) rest = ended a
and_on (failed a) rest = failed a

module _ {A : Type 0} (f : A → DirEntry → List ℕ → A) where
  -- One entry.
  unfoldable pub walk_entry : List ℕ → Lfn → A → Walk A
  unfolding put_lfn entry_name read_dir_entry
  walk_entry e l a =
      if get_or e 0 0 == 0
      then ended a
      else if get_or e 0 0 == 0xE5
      then more (record l { len = 0 }) a
      else if get_or e 11 0 == 0x0F
      then more (put_lfn e l) a
      else more (record l { len = 0 }) (f a (read_dir_entry e) (entry_name e l))

  -- The `n` entries of a sector from the `i`-th on.
  unfoldable pub walk_entries : ℕ → ℕ → List ℕ → Lfn → A → Walk A
  unfolding walk_entry
  walk_entries zero i buf l a = more l a
  walk_entries (suc n) i buf l a =
      and_on (walk_entry (entry_bytes buf i) l a) λ l2 b. walk_entries n (i + 1) buf l2 b

  -- The `n` sectors from `sector` on.
  unfoldable pub walk_sectors : ℕ → ℕ → Lfn → A → Disk → Walk A
  unfolding walk_entries disk_read
  walk_sectors zero sector l a d = more l a
  walk_sectors (suc n) sector l a d = elim (disk_read sector block_size d) [
    | none ↦ failed a
    | some buf ↦
        and_on (walk_entries entries_per_sector 0 buf l a)
          λ l2 b. walk_sectors n (sector + 1) l2 b d
  ]

  -- The clusters of a chain.
  unfoldable pub walk_clusters : ℕ → Fat32Fs → ℕ → Lfn → A → Disk → Walk A
  unfolding walk_sectors fat_next cluster_to_sector
  walk_clusters zero fs cluster l a d = more l a
  walk_clusters (suc fuel) fs cluster l a d =
      and_on (walk_sectors (spc fs) (cluster_to_sector fs cluster) l a d) λ l2 b.
        elim (link (fat_next fs cluster d)) [
          | none ↦ ended b
          | some next ↦ walk_clusters fuel fs next l2 b d
        ]

  unfoldable pub walk_dir : ℕ → Fat32Fs → ℕ → A → Disk → Bool × A
  unfolding walk_clusters
  walk_dir fuel fs dir_cluster a d = result (walk_clusters fuel fs dir_cluster no_lfn a d)

abbrev pub to_ascii_lowercase : ℕ → ℕ
to_ascii_lowercase b = if leb b'A' b && leb b b'Z' then b + 32 else b

-- Names of one length, compared by `eq_ignore_ascii_case`.
unfoldable pub same_name : List ℕ → List ℕ → Bool
same_name [] [] = true
same_name [] (b ∷ bs) = false
same_name (a ∷ as') [] = false
same_name (a ∷ as') (b ∷ bs) = to_ascii_lowercase a == to_ascii_lowercase b && same_name as' bs

-- The callback of `find_entry`.
unfoldable pub keep_first :
    List ℕ → Option (DirEntry × List ℕ) → DirEntry → List ℕ → Option (DirEntry × List ℕ)
unfolding same_name
keep_first search (some r) e name = some r
keep_first search none e name = if same_name name search then some (e, name) else none

unfoldable pub find_entry : ℕ → Fat32Fs → ℕ → List ℕ → Disk → Option (DirEntry × List ℕ)
unfolding walk_dir keep_first
find_entry fuel fs dir_cluster name d = (walk_dir (keep_first name) fuel fs dir_cluster none d).1
