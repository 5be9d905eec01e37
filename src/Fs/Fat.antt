-- ===== src/Fs/Fat.antt =====
-- The file allocation table of the file server, user/programs/fs-server/src/main.rs.
use nek_os.Base.{
  ℕ, ◌+◌, ◌*◌, ◌%◌, ◌^◌, ◌≤◌, ◌<◌, some, List, length, get_or, ◌≡◌, refl, ap, ◌≢◌, arith,
}
use nek_os.Base.Bits.Masks.{bit_and-ones}
use nek_os.Base.Bytes.{le_at, to_le_bytes, splice}
use nek_os.Base.Bytes
use nek_os.Fs.{
  Disk, Fat32Fs, block_size, ramdisk_size, bytes_at, put_bytes, fat_sector, fat_place, fat_next,
  fat_set,
}
use nek_os.Fs.Partial
use nek_os.Fs.Sectors

-- The address of the entry of a cluster.
abbrev pub fat_address : Fat32Fs → ℕ → ℕ
fat_address fs c = fs.fat_start * block_size + c * 4

-- The entry of the cluster lies on the disk.
abbrev pub HasEntry : Fat32Fs → ℕ → Type 0
HasEntry fs c = fat_address fs c < ramdisk_size

abbrev value_of : List ℕ → ℕ
value_of bytes = le_at 4 0 bytes % 2 ^ 28

-- What the table holds for a cluster.
unfoldable pub fat_value : Fat32Fs → ℕ → Disk → ℕ
unfolding le_at bytes_at
fat_value fs c d = value_of (bytes_at 4 (fat_address fs c) d)

abbrev pub write_value : Fat32Fs → ℕ → ℕ → Disk → Disk
write_value fs c v = put_bytes (fat_address fs c) (to_le_bytes 4 v)

same :
    (fs : Fat32Fs) (c : ℕ) (d : Disk) (j : ℕ)
    → j < 4
    → get_or (bytes_at block_size (fat_sector fs c * block_size) d) (fat_place c + j) 0
      ≡ get_or (bytes_at 4 (fat_address fs c) d) (0 + j) 0
same fs c d j k =
    let there : fat_sector fs c * block_size + (fat_place c + j) ≡ fat_address fs c + (0 + j) =
      omega arith in
    rw
      (
        Sectors.get_or-bytes_at block_size (fat_sector fs c * block_size) (fat_place c + j) d
            (omega arith),
        Sectors.get_or-bytes_at 4 (fat_address fs c) (0 + j) d (omega arith),
      )
      (ap d there)

fits :
    (fs : Fat32Fs) (c : ℕ) {n : ℕ}
    → n ≡ block_size
    → HasEntry fs c
    → fat_sector fs c * block_size + n ≤ ramdisk_size
fits fs c e h = omega arith

address : (fs : Fat32Fs) (c : ℕ) → fat_sector fs c * block_size + fat_place c ≡ fat_address fs c
address fs c = omega arith

pub fat_next_lem :
    (fs : Fat32Fs) (c : ℕ) (d : Disk) → HasEntry fs c → fat_next fs c d ≡ some (fat_value fs c d)
unfolding fat_next fat_value
fat_next_lem fs c d h =
    let buf = bytes_at block_size (fat_sector fs c * block_size) d in
    rw
      (
        Sectors.disk_read_lem (fat_sector fs c) block_size d (omega arith),
        Bytes.le_at-ext 4 (fat_place c) 0 buf (bytes_at 4 (fat_address fs c) d) (same fs c d),
      )
      (ap some (bit_and-ones 28 (le_at 4 0 (bytes_at 4 (fat_address fs c) d))))

pub fat_set_lem :
    (fs : Fat32Fs) (c v : ℕ) (d : Disk)
    → HasEntry fs c
    → fat_set fs c v d ≡ (some tt, write_value fs c v d)
unfolding fat_set
fat_set_lem fs c v d h =
    let o = fat_sector fs c * block_size in
    let buf = bytes_at block_size o d in
    let four = Bytes.length-to_le_bytes 4 v in
    let len : length (splice buf (fat_place c) (to_le_bytes 4 v)) ≡ block_size =
      rw (Bytes.length-splice buf (fat_place c) (to_le_bytes 4 v))
        (Sectors.length-bytes_at block_size o d) in
    rw
      (
        Sectors.disk_read_lem (fat_sector fs c) block_size d (fits fs c refl h),
        Sectors.disk_write_lem (fat_sector fs c) (splice buf (fat_place c) (to_le_bytes 4 v)) d
            (fits fs c len h),
        Partial.put_bytes-splice block_size o (fat_place c) (to_le_bytes 4 v) d (fits_in c four),
        address fs c,
      )
      refl
  where
    fits_in : (c : ℕ) {n : ℕ} → n ≡ 4 → fat_place c + n ≤ block_size
    fits_in c e = omega arith

pub fat_value-write_value :
    (fs : Fat32Fs) (c v : ℕ) (d : Disk) → v < 2 ^ 28 → fat_value fs c (write_value fs c v d) ≡ v
unfolding fat_value
fat_value-write_value fs c v d l =
    let back : fat_value fs c (write_value fs c v d) ≡ le_at 4 0 (to_le_bytes 4 v) % 2 ^ 28 =
      ap value_of (
        Sectors.bytes_at-put_bytes_n 4 (fat_address fs c) (to_le_bytes 4 v) d
          (Bytes.length-to_le_bytes 4 v)) in
    omega (arith, back, Bytes.le_at-to_le_bytes 4 v (omega arith))

pub fat_value-write_value_ne :
    (fs : Fat32Fs) (c other v : ℕ) (d : Disk)
    → other ≢ c
    → fat_value fs other (write_value fs c v d) ≡ fat_value fs other d
unfolding fat_value
fat_value-write_value_ne fs c other v d ne = ap value_of (
    Sectors.bytes_at-put_bytes_out 4 (fat_address fs other) (fat_address fs c) (to_le_bytes 4 v) d
      (ground (arith, Bytes.length-to_le_bytes 4 v)))

-- Disks that agree on the bytes of an entry have the same value there.
pub fat_value-ext :
    (fs : Fat32Fs) (c : ℕ) (d e : Disk)
    → ((j : ℕ) → j < 4 → d (fat_address fs c + j) ≡ e (fat_address fs c + j))
    → fat_value fs c d ≡ fat_value fs c e
unfolding fat_value
fat_value-ext fs c d e same =
    ap value_of (Sectors.bytes_at-ext 4 (fat_address fs c) (fat_address fs c) d e same)

-- A value of 28 bits that is set is the one that the table then holds, and the entries of the other
-- clusters stay.
pub fat_next-fat_set :
    (fs : Fat32Fs) (c v : ℕ) (d : Disk)
    → HasEntry fs c
    → v < 2 ^ 28
    → let (o, e) = fat_set fs c v d in
      (o ≡ some tt)
      × (fat_next fs c e ≡ some v)
      × ((other : ℕ) → HasEntry fs other → other ≢ c → fat_next fs other e ≡ fat_next fs other d)
fat_next-fat_set fs c v d h l = rw (fat_set_lem fs c v d h) (
  refl,
  rw (fat_next_lem fs c (write_value fs c v d) h, fat_value-write_value fs c v d l) refl,
  λ other k ne.
      rw
        (
          fat_next_lem fs other (write_value fs c v d) k,
          fat_next_lem fs other d k,
          fat_value-write_value_ne fs c other v d ne,
        )
        refl,
)
