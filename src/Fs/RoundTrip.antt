-- ===== src/Fs/RoundTrip.antt =====
-- Reading back what was written within the first cluster of a file of the file server,
-- user/programs/fs-server/src/main.rs, where a cluster is one sector.
use nek_os.Base.{
  ℕ, suc, ◌+◌, ◌-◌, ◌*◌, ◌%◌, ◌^◌, ◌≤◌, ◌<◌, min, false, some, List, [], length, take, drop, ltb,
  leb, ge→ltb, lt→ltb, ◌≡◌, refl, sym, ap, subst, ◌⊎◌, arith, ◌∙◌,
}
use nek_os.Base.Bytes
use nek_os.Base.Bytes.{splice}
use nek_os.Fs.{
  Disk, Fat32Fs, block_size, ramdisk_size, disk_read, put_bytes, spc, cluster_to_sector,
}
use nek_os.Fs.File.{over, old_block, write_sectors, write_file, read_sectors, read_file}
use nek_os.Fs.Sectors
use nek_os.Fs.Volume.{IsVolume, IsCluster, data_address, cluster_in, cluster_to_sector_lem}
use nek_os.Fs.Block.{
  written, length-old_block, take-drop-splice, write_sectors-one, read_sectors-one,
  seek_extend-here, seek-here, write_clusters-over, read_clusters-over,
}

-- The only sector of a cluster.
only_sector : Fat32Fs → ℕ → ℕ
only_sector fs c = fs.data_start + (c - 2) * spc fs

near_start :
    (n offset : ℕ)
    → n ≡ 1
    → offset < block_size
    → leb ((0 + n * block_size) % 2 ^ 32) offset ≡ false
near_start n offset e h = rw e (ground arith)

only_sector-in :
    (fs : Fat32Fs) (c : ℕ)
    → IsVolume fs
    → spc fs ≡ 1
    → IsCluster fs c
    → (only_sector fs c * block_size + block_size ≤ ramdisk_size) × (only_sector fs c < 2 ^ 55)
unfolding only_sector
only_sector-in fs c v one cl =
    let (inside, entry) = cluster_in c v cl in
    let size = ap (λ (n : ℕ). n * block_size) one in
    (omega (arith, inside, size), omega (arith, inside))

write_file-one :
    (fuel : ℕ) (fs : Fat32Fs) (c offset : ℕ) (buf : List ℕ) (d : Disk)
    → IsVolume fs
    → spc fs ≡ 1
    → IsCluster fs c
    → 0 < length buf
    → offset + length buf ≤ block_size
    → write_file (suc fuel) fs c offset buf d
      ≡ ((length buf, c), put_bytes (data_address fs c) (written (only_sector fs c) offset buf d) d)
unfolding write_file only_sector
write_file-one fuel fs c offset buf d v one cl p q =
    let (inside, small) = only_sector-in fs c v one cl in
    let skipped : offset - 0 ≡ offset = omega arith in
    let big : ltb c 2 ≡ false = ge→ltb c 2 cl.0 in
    let near = near_start (spc fs) offset one (omega (arith, p, q)) in
    let here = write_sectors-one (only_sector fs c) offset buf d inside p q in
    let run : write_sectors (spc fs) 0 (cluster_to_sector fs c) offset offset 0 buf 0 d
        ≡ over (
          length buf,
          put_bytes (data_address fs c) (written (only_sector fs c) offset buf d) d,
        ) =
      rw (cluster_to_sector_lem c v cl) (
        subst
          (λ (n : ℕ).
            write_sectors n 0 (only_sector fs c) offset offset 0 buf 0 d
            ≡ over (
              length buf,
              put_bytes (data_address fs c) (written (only_sector fs c) offset buf d) d,
            ))
          (sym one) here) in
    rw
      (
        big,
        seek_extend-here fuel fs c offset offset d near,
        seek_extend-here fuel fs c offset offset d near,
        skipped,
        write_clusters-over fuel fs c offset offset buf d (lt→ltb 0 (length buf) p) run,
      )
      refl

read_file-one :
    (fuel : ℕ) (fs : Fat32Fs) (c offset file_size n : ℕ) (block : List ℕ) (d : Disk)
    → IsVolume fs
    → spc fs ≡ 1
    → IsCluster fs c
    → 0 < n
    → offset + n ≤ block_size
    → offset + n ≤ file_size
    → disk_read (only_sector fs c) block_size d ≡ some block
    → read_file (suc fuel) fs c offset file_size n d ≡ take n (drop offset block)
unfolding read_file only_sector
read_file-one fuel fs c offset file_size n block d v one cl p q r e =
    let skipped : offset - 0 ≡ offset = omega arith in
    let big : ltb c 2 ≡ false = ge→ltb c 2 cl.0 in
    let within : leb file_size offset ≡ false = ground arith in
    let near = near_start (spc fs) offset one (omega (arith, p, q)) in
    let all : min n (file_size - offset) ≡ n = omega (arith, r) in
    let run : read_sectors (spc fs) 0 (cluster_to_sector fs c) offset offset 0 n [] d
        ≡ over (take n (drop offset block)) =
      rw (cluster_to_sector_lem c v cl) (
        subst
          (λ (k : ℕ).
            read_sectors k 0 (only_sector fs c) offset offset 0 n [] d
            ≡ over (take n (drop offset block)))
          (sym one) (read_sectors-one (only_sector fs c) offset n block d e p q)) in
    rw
      (
        within,
        big,
        seek-here fuel fs c offset offset d near,
        all,
        skipped,
        read_clusters-over fuel fs c offset offset n d (lt→ltb 0 n p) run,
      )
      refl

-- A write of at least one byte within the first cluster of a file, on a volume with clusters of one
-- sector, writes all bytes and ends in that cluster. A read of that place then gives the bytes written,
-- and no byte outside the cluster changes.
pub write_file-read_file :
    (fuel : ℕ) (fs : Fat32Fs) (c offset file_size : ℕ) (buf : List ℕ) (d : Disk)
    → IsVolume fs
    → spc fs ≡ 1
    → IsCluster fs c
    → 0 < length buf
    → offset + length buf ≤ block_size
    → offset + length buf ≤ file_size
    → let (r, e) = write_file (suc fuel) fs c offset buf d in
      (r ≡ (length buf, c))
      × (read_file (suc fuel) fs c offset file_size (length buf) e ≡ buf)
      × ((a : ℕ) → (a < data_address fs c) ⊎ (data_address fs c + block_size ≤ a) → e a ≡ d a)
unfolding only_sector
write_file-read_file fuel fs c offset file_size buf d v one cl p q r =
    let (inside, small) = only_sector-in fs c v one cl in
    let block = written (only_sector fs c) offset buf d in
    let old = length-old_block offset (only_sector fs c) d inside in
    let len : length block ≡ block_size =
      Bytes.length-splice (old_block offset (only_sector fs c) d) offset buf ∙ old in
    let e = put_bytes (data_address fs c) block d in
    let back : disk_read (only_sector fs c) block_size e ≡ some block =
      Sectors.disk_read_lem (only_sector fs c) block_size e inside
      ∙ ap some (Sectors.bytes_at-put_bytes_n block_size (data_address fs c) block d len) in
    rw (write_file-one fuel fs c offset buf d v one cl p q) (
      refl,
      read_file-one fuel fs c offset file_size (length buf) block e v one cl p q r back
          ∙ take-drop-splice (old_block offset (only_sector fs c) d) offset buf
              (omega (arith, old, q)),
      λ a out. Sectors.put_bytes-out (data_address fs c) block d a (ground (arith, len, out)),
    )
