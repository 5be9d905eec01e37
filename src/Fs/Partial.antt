-- ===== src/Fs/Partial.antt =====
-- Sectors of the RAM disk of the file server, user/programs/fs-server/src/main.rs, that are read,
-- changed in a part and written back.
use mathlib.Core.Path.{fun_ext}
use nek_os.Base.{
  ℕ, ◌+◌, ◌-◌, ◌≤◌, ◌<◌, Option, none, some, List, length, get_or, ltb, leb, ◌&&◌, ◌≡◌, refl, ◌⊎◌,
  inl, inr, arith, Bool-cases, ltb→lt, ge→ltb, false, ap, ◌∙◌,
}
use nek_os.Base.Bytes.{splice}
use nek_os.Base.Bytes
use nek_os.Fs.{
  Disk, block_size, ramdisk_size, offset_of, bytes_at, disk_read, disk_write, put_bytes,
}
use nek_os.Fs.Sectors

-- A block read, changed in a part and written back changes that part of the disk.
pub put_bytes-splice :
    (n o i : ℕ) (vs : List ℕ) (d : Disk)
    → i + length vs ≤ n
    → put_bytes o (splice (bytes_at n o d) i vs) d ≡ put_bytes (o + i) vs d
put_bytes-splice n o i vs d h = fun_ext λ a. elim (Bool-cases (leb o a && ltb a (o + n))) [
  | inl inside ↦
      let e : a ≡ o + (a - o) = ground arith in
      let l : a - o < n = ground arith in rw e (within (a - o) l)
  | inr outside ↦
      let apart : (a < o) ⊎ (o + n ≤ a) = ground arith in
      let left : put_bytes o (splice (bytes_at n o d) i vs) d a ≡ d a =
        Sectors.put_bytes-out o _ d a (ground (arith, len)) in
      rw (left, Sectors.put_bytes-out (o + i) vs d a (ground arith)) refl
]
  where
    len : length (splice (bytes_at n o d) i vs) ≡ n
    len = rw (Bytes.length-splice (bytes_at n o d) i vs) (Sectors.length-bytes_at n o d)

    within :
        (j : ℕ)
        → j < n
        → put_bytes o (splice (bytes_at n o d) i vs) d (o + j) ≡ put_bytes (o + i) vs d (o + j)
    within j l =
        let block = splice (bytes_at n o d) i vs in
        let left : put_bytes o block d (o + j) ≡ get_or block j 0 =
          Sectors.put_bytes-in o block d j (omega (arith, len, l)) in
        let old : get_or (bytes_at n o d) j 0 ≡ d (o + j) = Sectors.get_or-bytes_at n o j d l in
        elim (Bool-cases (ltb j i)) [
          | inl before ↦
              rw
                (
                  left,
                  Bytes.get_or-splice_before (bytes_at n o d) i vs j (ltb→lt j i before),
                  old,
                  Sectors.put_bytes-out (o + i) vs d (o + j) (ground arith),
                )
                refl
          | inr from ↦ elim (Bool-cases (ltb j (i + length vs))) [
            | inl inside ↦
                let e : j ≡ i + (j - i) = ground arith in
                let k : j - i < length vs = ground arith in
                let there : o + j ≡ o + i + (j - i) = ground arith in
                rw
                  (
                    left,
                    Bytes.get_or-splice_in (bytes_at n o d) i vs j (j - i) e
                        (omega (arith, Sectors.length-bytes_at n o d, h)) k,
                    there,
                    Sectors.put_bytes-in (o + i) vs d (j - i) k,
                  )
                  refl
            | inr behind ↦
                rw
                  (
                    left,
                    Bytes.get_or-splice_behind (bytes_at n o d) i vs j (ground arith),
                    old,
                    Sectors.put_bytes-out (o + i) vs d (o + j) (ground arith),
                  )
                  refl
          ]
        ]

clash : {o : Option (List ℕ)} {b : List ℕ} → o ≡ none → o ≡ some b → ⊥
clash n e = cc

unique : {o : Option (List ℕ)} {a b : List ℕ} → o ≡ some a → o ≡ some b → a ≡ b
unique n e = cc

-- A sector that has been read lies on the disk.
pub read_in :
    (sector : ℕ) (d : Disk) (buf : List ℕ)
    → disk_read sector block_size d ≡ some buf
    → (offset_of sector + block_size ≤ ramdisk_size)
      × (buf ≡ bytes_at block_size (offset_of sector) d)
unfolding disk_read
read_in sector d buf e = elim (Bool-cases (ltb ramdisk_size (offset_of sector + block_size))) [
  | inl over ↦ let n : disk_read sector block_size d ≡ none = rw over refl in absurd (clash n e)
  | inr fits ↦
      let r : disk_read sector block_size d ≡ some (bytes_at block_size (offset_of sector) d) =
        rw fits refl in
      (within (offset_of sector + block_size) fits, unique e r)
]
  where
    within : (x : ℕ) → ltb ramdisk_size x ≡ false → x ≤ ramdisk_size
    within x h = ground arith

-- Such a sector, changed in a part and written back.
pub disk_write-splice :
    (sector i : ℕ) (vs : List ℕ) (d : Disk) (buf : List ℕ)
    → disk_read sector block_size d ≡ some buf
    → i + length vs ≤ block_size
    → disk_write sector (splice buf i vs) d ≡ (some tt, put_bytes (offset_of sector + i) vs d)
unfolding disk_write
disk_write-splice sector i vs d buf e h =
    let (inside, same) = read_in sector d buf e in
    let len : length (splice buf i vs) ≡ block_size =
      Bytes.length-splice buf i vs
      ∙ rw same (Sectors.length-bytes_at block_size (offset_of sector) d) in
    let fits : ltb ramdisk_size (offset_of sector + length (splice buf i vs)) ≡ false =
      rw len (ge→ltb ramdisk_size (offset_of sector + block_size) inside) in
    rw (fits, same, put_bytes-splice block_size (offset_of sector) i vs d h) refl

-- Such a sector, replaced by another block, is that block.
pub disk_read-replaced :
    (sector : ℕ) (d : Disk) (buf new : List ℕ)
    → disk_read sector block_size d ≡ some buf
    → length new ≡ block_size
    → (disk_write sector new d ≡ (some tt, put_bytes (offset_of sector) new d))
      × (disk_read sector block_size (put_bytes (offset_of sector) new d) ≡ some new)
unfolding disk_write disk_read
disk_read-replaced sector d buf new e l =
    let (inside, same) = read_in sector d buf e in
    let fits : ltb ramdisk_size (offset_of sector + length new) ≡ false =
      rw l (ge→ltb ramdisk_size (offset_of sector + block_size) inside) in
    let again : ltb ramdisk_size (offset_of sector + block_size) ≡ false =
      ge→ltb ramdisk_size (offset_of sector + block_size) inside in
    (
      rw fits refl,
      rw again (ap some (Sectors.bytes_at-put_bytes_n block_size (offset_of sector) new d l)),
    )
