-- ===== src/Fs/Block.antt =====
-- Writing and reading within the first cluster of a file of the file server,
-- user/programs/fs-server/src/main.rs, where a cluster is one sector.
use nek_os.Base.{
  ℕ, zero, suc, ◌+◌, ◌-◌, ◌*◌, ◌≤◌, ◌<◌, min, true, false, some, List, [], ◌∷◌, length, take, drop,
  ltb, leb, ◌==◌, ◌≡◌, refl, ap, inl, inr, arith, ◌∙◌, Bool-cases,
}
use nek_os.Base.Bytes
use nek_os.Base.Bytes.{splice}
use nek_os.Fs.{
  Disk, Fat32Fs, block_size, ramdisk_size, disk_read, put_bytes, spc, cluster_to_sector,
}
use nek_os.Fs.File.{
  over, start_in, next_offset, old_block, write_sectors, write_clusters, seek_extend, seek,
  read_sectors, read_clusters,
}
use nek_os.Fs.Alloc.{length-zero_block}
use nek_os.Fs.Sectors

take_all : (xs : List ℕ) → take (length xs) xs ≡ xs
take_all [] = refl
take_all (x ∷ xs) = ap (◌∷◌ x) (take_all xs)

-- What a copy has put into a buffer.
pub take-drop-splice :
    (xs : List ℕ) (i : ℕ) (vs : List ℕ)
    → i + length vs ≤ length xs
    → take (length vs) (drop i (splice xs i vs)) ≡ vs
unfolding splice
take-drop-splice [] zero [] h = refl
take-drop-splice [] zero (v ∷ vs) h = absurd (omega arith)
take-drop-splice [] (suc i) vs h = absurd (omega arith)
take-drop-splice (x ∷ xs) zero [] h = refl
take-drop-splice (x ∷ xs) zero (v ∷ vs) h = ap (◌∷◌ v) (take-drop-splice xs 0 vs (omega arith))
take-drop-splice (x ∷ xs) (suc i) vs h = take-drop-splice xs i vs (omega arith)

-- The block that a write leaves: what was there before only where the write does not start at its front.
abbrev pub written : ℕ → ℕ → List ℕ → Disk → List ℕ
written sector offset buf d = splice (old_block offset sector d) offset buf

pub length-old_block :
    (start sector : ℕ) (d : Disk)
    → sector * block_size + block_size ≤ ramdisk_size
    → length (old_block start sector d) ≡ block_size
length-old_block start sector d h = elim (Bool-cases (ltb 0 start)) [
  | inl p ↦
      rw (p, Sectors.disk_read_lem sector block_size d h) (Sectors.length-bytes_at block_size _ d)
  | inr z ↦ rw z length-zero_block
]

-- The place of a transfer in the first sector.
start_zero : (offset : ℕ) → offset ≤ block_size → start_in offset offset 0 0 0 ≡ offset
start_zero offset h = ground arith

pub write_sectors-one :
    (sector offset : ℕ) (buf : List ℕ) (d : Disk)
    → sector * block_size + block_size ≤ ramdisk_size
    → 0 < length buf
    → offset + length buf ≤ block_size
    → write_sectors 1 0 sector offset offset 0 buf 0 d
      ≡ over (length buf, put_bytes (sector * block_size) (written sector offset buf d) d)
unfolding write_sectors
write_sectors-one sector offset buf d h p l =
    let start = start_zero offset (omega arith) in
    let count : min (block_size - offset) (length buf - 0) ≡ length buf = omega arith in
    let some_bytes : (length buf == 0) ≡ false = ground arith in
    let all : leb (length buf) (0 + length buf) ≡ true = ground arith in
    let there : sector + 0 ≡ sector = omega arith in
    let sum : 0 + length buf ≡ length buf = omega arith in
    let len : length (written sector offset buf d) ≡ block_size =
      Bytes.length-splice (old_block offset sector d) offset buf
      ∙ length-old_block offset sector d h in
    let wrote =
      Sectors.disk_write_lem sector (written sector offset buf d) d (omega (arith, len, h)) in
    rw
      (
        write_sectors,
        start,
        count,
        some_bytes,
        start,
        count,
        there,
        take_all buf,
        wrote,
        start,
        count,
        all,
        start,
        count,
        there,
        take_all buf,
        wrote,
        sum,
      )
      refl

pub read_sectors-one :
    (sector offset n : ℕ) (block : List ℕ) (d : Disk)
    → disk_read sector block_size d ≡ some block
    → 0 < n
    → offset + n ≤ block_size
    → read_sectors 1 0 sector offset offset 0 n [] d ≡ over (take n (drop offset block))
unfolding read_sectors
read_sectors-one sector offset n block d e p l =
    let start = start_zero offset (omega arith) in
    let count : min (block_size - offset) (n - 0) ≡ n = omega arith in
    let some_bytes : (n == 0) ≡ false = ground arith in
    let all : leb n (0 + n) ≡ true = ground arith in
    let there : sector + 0 ≡ sector = omega arith in
    rw (read_sectors, there, e, start, count, some_bytes, start, count, all, start, count) refl

-- A cluster that holds the offset, and a transfer that ends in it.
module _ (fuel : ℕ) (fs : Fat32Fs) (c skip offset : ℕ) where
  pub seek_extend-here :
      (d : Disk)
      → leb (next_offset fs 0) offset ≡ false
      → seek_extend (suc fuel) fs offset c 0 d ≡ (some (c, 0), d)
  unfolding seek_extend
  seek_extend-here d h = rw (h, seek_extend) refl

  pub seek-here :
      (d : Disk)
      → leb (next_offset fs 0) offset ≡ false
      → seek (suc fuel) fs offset c 0 d ≡ some (c, 0)
  unfolding seek
  seek-here d h = rw (h, seek) refl

  pub write_clusters-over :
      (buf : List ℕ) (d : Disk) {n : ℕ} {e : Disk}
      → ltb 0 (length buf) ≡ true
      → write_sectors (spc fs) 0 (cluster_to_sector fs c) skip offset 0 buf 0 d ≡ over (n, e)
      → write_clusters (suc fuel) fs skip offset c 0 buf 0 d ≡ ((n, c), e)
  unfolding write_clusters
  write_clusters-over buf d any run = rw (any, write_clusters, run) refl

  pub read_clusters-over :
      (n : ℕ) (d : Disk) {out : List ℕ}
      → ltb 0 n ≡ true
      → read_sectors (spc fs) 0 (cluster_to_sector fs c) skip offset 0 n [] d ≡ over out
      → read_clusters (suc fuel) fs skip offset c 0 n [] d ≡ out
  unfolding read_clusters
  read_clusters-over n d any run = rw (any, read_clusters, run) refl
