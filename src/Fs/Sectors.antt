-- ===== src/Fs/Sectors.antt =====
-- Reads and writes of the RAM disk of the file server, user/programs/fs-server/src/main.rs.
use nek_os.Base.{
  ℕ, zero, suc, ◌+◌, ◌-◌, ◌*◌, ◌%◌, ◌^◌, ◌≤◌, ◌<◌, false, none, some, List, [], ◌∷◌, length, get_or,
  ltb, ◌≡◌, refl, ap, ap₂, ◌⊎◌, inl, inr, arith, Bool-cases, ltb→lt,
}
use nek_os.Fs.{
  Disk, block_size, ramdisk_size, offset_of, bytes_at, disk_read, disk_write, put_bytes,
}

pub length-bytes_at : (n a : ℕ) (d : Disk) → length (bytes_at n a d) ≡ n
unfolding bytes_at
length-bytes_at zero a d = refl
length-bytes_at (suc n) a d = ap suc (length-bytes_at n (a + 1) d)

pub get_or-bytes_at : (n a i : ℕ) (d : Disk) → i < n → get_or (bytes_at n a d) i 0 ≡ d (a + i)
unfolding bytes_at
get_or-bytes_at zero a i d h = absurd (omega arith)
get_or-bytes_at (suc n) a zero d h = ap d (omega arith)
get_or-bytes_at (suc n) a (suc i) d h =
    let there : a + 1 + i ≡ a + suc i = omega arith in
    rw (get_or-bytes_at n (a + 1) i d (omega arith), there) refl

-- Bytes that agree are the same bytes.
pub bytes_at-ext :
    (n a b : ℕ) (d e : Disk)
    → ((i : ℕ) → i < n → d (a + i) ≡ e (b + i))
    → bytes_at n a d ≡ bytes_at n b e
unfolding bytes_at
bytes_at-ext zero a b d e same = refl
bytes_at-ext (suc n) a b d e same =
    let here : d a ≡ e b =
      let p : a ≡ a + 0 = omega arith in
      let q : b ≡ b + 0 = omega arith in rw (p, q) (same 0 (omega arith)) in
    ap₂ ◌∷◌ here (
      bytes_at-ext n (a + 1) (b + 1) d e λ i h.
        let p : a + 1 + i ≡ a + suc i = omega arith in
        let q : b + 1 + i ≡ b + suc i = omega arith in rw (p, q) (same (suc i) (omega arith)))

pub put_bytes-out :
    (o : ℕ) (buf : List ℕ) (d : Disk) (a : ℕ)
    → (a < o) ⊎ (o + length buf ≤ a)
    → put_bytes o buf d a ≡ d a
put_bytes-out o buf d a h = ground arith

pub put_bytes-in :
    (o : ℕ) (buf : List ℕ) (d : Disk) (i : ℕ)
    → i < length buf
    → put_bytes o buf d (o + i) ≡ get_or buf i 0
put_bytes-in o buf d i h = let k : o + i - o ≡ i = omega arith in ground (arith, k)

-- Bytes of the disk that agree with a buffer.
bytes_at-list :
    (buf : List ℕ) (o : ℕ) (d : Disk)
    → ((i : ℕ) → i < length buf → d (o + i) ≡ get_or buf i 0)
    → bytes_at (length buf) o d ≡ buf
unfolding bytes_at
bytes_at-list [] o d same = refl
bytes_at-list (b ∷ bs) o d same =
    let here : d o ≡ b = let p : o ≡ o + 0 = omega arith in rw p (same 0 (omega arith)) in
    ap₂ ◌∷◌ here (
      bytes_at-list bs (o + 1) d
        λ i h. let p : o + 1 + i ≡ o + suc i = omega arith in rw p (same (suc i) (omega arith)))

pub bytes_at-put_bytes :
    (o : ℕ) (buf : List ℕ) (d : Disk) → bytes_at (length buf) o (put_bytes o buf d) ≡ buf
bytes_at-put_bytes o buf d = bytes_at-list buf o (put_bytes o buf d) λ i h. put_bytes-in o buf d i h

pub bytes_at-put_bytes_n :
    (n o : ℕ) (buf : List ℕ) (d : Disk) → length buf ≡ n → bytes_at n o (put_bytes o buf d) ≡ buf
bytes_at-put_bytes_n n o buf d l = rw (← l) (bytes_at-put_bytes o buf d)

-- Bytes apart from a write stay.
pub bytes_at-put_bytes_out :
    (n a o : ℕ) (buf : List ℕ) (d : Disk)
    → (a + n ≤ o) ⊎ (o + length buf ≤ a)
    → bytes_at n a (put_bytes o buf d) ≡ bytes_at n a d
bytes_at-put_bytes_out n a o buf d apart =
    bytes_at-ext n a a (put_bytes o buf d) d λ i h. put_bytes-out o buf d (a + i) (ground arith)

-- Within the disk, a read gives the bytes and a write replaces them.
pub disk_read_lem :
    (sector n : ℕ) (d : Disk)
    → sector * block_size + n ≤ ramdisk_size
    → disk_read sector n d ≡ some (bytes_at n (sector * block_size) d)
unfolding disk_read
disk_read_lem sector n d h =
    let o : offset_of sector ≡ sector * block_size = omega arith in rw o (ground arith)

pub disk_write_lem :
    (sector : ℕ) (buf : List ℕ) (d : Disk)
    → sector * block_size + length buf ≤ ramdisk_size
    → disk_write sector buf d ≡ (some tt, put_bytes (sector * block_size) buf d)
unfolding disk_write
disk_write_lem sector buf d h =
    let o : offset_of sector ≡ sector * block_size = omega arith in rw o (ground arith)

pub disk_read-put_bytes_out :
    (sector n o : ℕ) (buf : List ℕ) (d : Disk)
    → sector < 2 ^ 55
    → (sector * block_size + n ≤ o) ⊎ (o + length buf ≤ sector * block_size)
    → disk_read sector n (put_bytes o buf d) ≡ disk_read sector n d
unfolding disk_read
disk_read-put_bytes_out sector n o buf d h apart =
    let e : offset_of sector ≡ sector * block_size = omega arith in
    rw (e, bytes_at-put_bytes_out n (sector * block_size) o buf d apart) refl

-- The address of a sector is its number times 512, modulo 2 ^ 64, so that a number from 2 ^ 55 on stands
-- for a lower sector. A write of a buffer that ends within the disk from this address on succeeds, a
-- read of that sector then gives the buffer, and a read of any sector whose bytes the buffer does not
-- reach gives what it gave before. Any other write, where the address of its end does not wrap, fails
-- and changes nothing.
pub disk_read-disk_write :
    (sector : ℕ) (buf : List ℕ) (d : Disk)
    → let (o, e) = disk_write sector buf d in
      ((sector * block_size % 2 ^ 64 + length buf ≤ ramdisk_size)
        × (o ≡ some tt)
        × (disk_read sector (length buf) e ≡ some buf)
        × ((other n : ℕ)
            → (other * block_size % 2 ^ 64 + n ≤ sector * block_size % 2 ^ 64)
              ⊎ (sector * block_size % 2 ^ 64 + length buf ≤ other * block_size % 2 ^ 64)
            → disk_read other n e ≡ disk_read other n d))
      ⊎ ((ramdisk_size < sector * block_size % 2 ^ 64 + length buf) × (o ≡ none) × (e ≡ d))
unfolding disk_write disk_read
disk_read-disk_write sector buf d =
    elim (Bool-cases (ltb ramdisk_size (offset_of sector + length buf))) [
      | inl over ↦ rw over (inr (ltb→lt _ _ over, refl, refl))
      | inr fits ↦ rw fits (
          inl (
            fits_in (offset_of sector + length buf) fits,
            refl,
            ap some (bytes_at-put_bytes (offset_of sector) buf d),
            λ other n apart.
                rw (bytes_at-put_bytes_out n (offset_of other) (offset_of sector) buf d apart) refl,
          ))
    ]
  where
    fits_in : (a : ℕ) → ltb ramdisk_size a ≡ false → a ≤ ramdisk_size
    fits_in a h = ground arith
