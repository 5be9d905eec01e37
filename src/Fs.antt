-- ===== src/Fs.antt =====
-- The FAT32 file server, user/programs/fs-server/src/main.rs: its RAM disk, the volume and the file
-- allocation table. The disk is a function from an address to the byte there. A `bool` that a source
-- function answers is the success of an operation on the disk; `fuel` counts the clusters that a loop
-- along a chain may visit.
pub mod Alloc
pub mod Block
pub mod Chain
pub mod Change
pub mod Create
pub mod CreateFind
pub mod Created
pub mod Delete
pub mod Dir
pub mod Ends
pub mod Records
pub mod Listing
pub mod Entries
pub mod Erase
pub mod Fat
pub mod File
pub mod Format
pub mod Kept
pub mod Mark
pub mod Names
pub mod Partial
pub mod Path
pub mod RoundTrip
pub mod Sectors
pub mod Server
pub mod Short
pub mod ShortName
pub mod Start
pub mod Volume
use nek_os.Base.{
  ltb, ℕ, zero, suc, ◌+◌, ◌-◌, ◌*◌, ◌/◌, ◌%◌, ◌^◌, bit_and, Bool, true, false, ◌&&◌, ◌||◌, Option,
  none, some, List, [], ◌∷◌, length, get_or, replicate, ltb, leb, ◌==◌, if◌then◌else◌, not,
  and_then, map_option, M, pure, fail, ◌>>=◌, ◌>>◌,
}
use nek_os.Base.Bytes.{le_at, to_le_bytes, splice}

abbrev pub block_size : ℕ
block_size = 512

abbrev pub ramdisk_size : ℕ
ramdisk_size = 4 * 1024 * 1024

abbrev pub ramdisk_sectors : ℕ
ramdisk_sectors = ramdisk_size / block_size

abbrev pub fat32_eoc : ℕ
fat32_eoc = 0x0FFFFFF8

abbrev pub fat32_free : ℕ
fat32_free = 0

abbrev pub Disk : Type 0
Disk = ℕ → ℕ

-- The `n` bytes of the disk from `a` on.
unfoldable pub bytes_at : ℕ → ℕ → Disk → List ℕ
bytes_at zero a d = []
bytes_at (suc n) a d = d a ∷ bytes_at n (a + 1) d

abbrev pub offset_of : ℕ → ℕ
offset_of sector = sector * block_size % 2 ^ 64

-- A read into a buffer of `n` bytes. A sum that wraps, for the last sector of 64 bits, ends the source with
-- a range out of bounds.
unfoldable pub disk_read : ℕ → ℕ → Disk → Option (List ℕ)
unfolding bytes_at
disk_read sector n d =
    if ltb ramdisk_size (offset_of sector + n) then none else some (bytes_at n (offset_of sector) d)

abbrev pub put_bytes : ℕ → List ℕ → Disk → Disk
put_bytes offset buf d a =
    if leb offset a && ltb a (offset + length buf) then get_or buf (a - offset) 0 else d a

unfoldable pub disk_write : ℕ → List ℕ → M Disk (Unit {0})
disk_write sector buf d =
    if ltb ramdisk_size (offset_of sector + length buf)
    then (none, d)
    else (some tt, put_bytes (offset_of sector) buf d)

-- An operation whose answer is dropped.
abbrev pub ignore : {A : Type 0} → M Disk A → M Disk (Unit {0})
ignore m d = (some tt, (m d).1)

-- An answer computed from the disk.
abbrev pub look : {A : Type 0} → (Disk → Option A) → M Disk A
look f d = (f d, d)

-- The fields of `Fat32Bpb` that are read.
pub record Fat32Bpb : Type 0 where
  pub bytes_per_sector : ℕ
  pub sectors_per_cluster : ℕ
  pub reserved_sector_count : ℕ
  pub num_fats : ℕ
  pub root_entry_count : ℕ
  pub fat_size_16 : ℕ
  pub total_sectors_32 : ℕ
  pub fat_size_32 : ℕ
  pub root_cluster : ℕ

-- `core::ptr::read` of the structure at the start of the boot sector
unfoldable pub read_bpb : List ℕ → Fat32Bpb
unfolding le_at
read_bpb s = record {
  bytes_per_sector = le_at 2 11 s;
  sectors_per_cluster = le_at 1 13 s;
  reserved_sector_count = le_at 2 14 s;
  num_fats = le_at 1 16 s;
  root_entry_count = le_at 2 17 s;
  fat_size_16 = le_at 2 22 s;
  total_sectors_32 = le_at 4 32 s;
  fat_size_32 = le_at 4 36 s;
  root_cluster = le_at 4 44 s;
}

pub record Fat32Fs : Type 0 where
  pub bpb : Fat32Bpb
  pub fat_start : ℕ
  pub data_start : ℕ
  pub total_clusters : ℕ
  pub root_cluster : ℕ

-- `open`. Without sectors in a cluster the division ends the server, as the answer `None` does in `main`.
unfoldable pub open_fs : List ℕ → Option Fat32Fs
unfolding read_bpb
open_fs bpb_sector =
    let b = read_bpb bpb_sector in
    let start = b.reserved_sector_count + b.num_fats * b.fat_size_32 in
    if not (b.bytes_per_sector == block_size)
    then none
    else if not (b.root_entry_count == 0) || not (b.fat_size_16 == 0)
    then none
    else if b.num_fats == 0 || b.fat_size_32 == 0
    then none
    else if b.sectors_per_cluster == 0
    then none
    else some (record {
      bpb = b;
      fat_start = b.reserved_sector_count;
      data_start = start;
      total_clusters =
          (b.total_sectors_32 + 2 ^ 64 - start) % 2 ^ 64 / b.sectors_per_cluster % 2 ^ 32;
      root_cluster = b.root_cluster;
    })

abbrev pub spc : Fat32Fs → ℕ
spc fs = fs.bpb.sectors_per_cluster

unfoldable pub cluster_to_sector : Fat32Fs → ℕ → ℕ
cluster_to_sector fs cluster = (fs.data_start + (cluster + (2 ^ 64 - 2)) % 2 ^ 64 * spc fs) % 2 ^ 64

-- The sector of the table that holds the entry of a cluster, and its place there.
abbrev pub fat_sector : Fat32Fs → ℕ → ℕ
fat_sector fs cluster = fs.fat_start + cluster * 4 / block_size

abbrev pub fat_place : ℕ → ℕ
fat_place cluster = cluster * 4 % block_size

unfoldable pub fat_next : Fat32Fs → ℕ → Disk → Option ℕ
unfolding disk_read le_at
fat_next fs cluster d =
    map_option (λ buf. bit_and (le_at 4 (fat_place cluster) buf) 0x0FFFFFFF)
      (disk_read (fat_sector fs cluster) block_size d)

unfoldable pub fat_set : Fat32Fs → ℕ → ℕ → M Disk (Unit {0})
unfolding disk_read disk_write splice to_le_bytes
fat_set fs cluster value = do
  buf ← look (disk_read (fat_sector fs cluster) block_size)
  disk_write (fat_sector fs cluster) (splice buf (fat_place cluster) (to_le_bytes 4 value))

abbrev pub is_free : Option ℕ → Bool
is_free none = false
is_free (some v) = v == fat32_free

-- The search among the `n` clusters from `c` on.
unfoldable pub find_free_from : Fat32Fs → ℕ → ℕ → Disk → Option ℕ
unfolding fat_next
find_free_from fs zero c d = none
find_free_from fs (suc n) c d = elim (is_free (fat_next fs c d)) [
  | true ↦ some c
  | false ↦ find_free_from fs n (c + 1) d
]

unfoldable pub find_free_cluster : Fat32Fs → Disk → Option ℕ
unfolding find_free_from
find_free_cluster fs = find_free_from fs (fs.total_clusters - 2) 2

unfoldable pub zero_block : List ℕ
zero_block = replicate block_size 0

-- Zeros in the `n` sectors from `sector` on, where they lie on the disk.
unfoldable pub zero_sectors : ℕ → ℕ → M Disk (Unit {0})
unfolding disk_write zero_block
zero_sectors zero sector = pure tt
zero_sectors (suc n) sector = ignore (disk_write sector zero_block) >> zero_sectors n (sector + 1)

unfoldable pub alloc_cluster : Fat32Fs → M Disk ℕ
unfolding find_free_cluster fat_set zero_sectors cluster_to_sector
alloc_cluster fs = do
  cluster ← look (find_free_cluster fs)
  fat_set fs cluster fat32_eoc
  zero_sectors (spc fs) (cluster_to_sector fs cluster)
  pure cluster

-- `Some(next) if next >= 2 && next < FAT32_EOC`
abbrev pub link : Option ℕ → Option ℕ
link none = none
link (some next) = if leb 2 next && ltb next fat32_eoc then some next else none
