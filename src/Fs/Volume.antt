-- ===== src/Fs/Volume.antt =====
-- The layout of a volume of the file server, user/programs/fs-server/src/main.rs, and what the
-- allocation of a cluster changes in it.
use native.Mathlib.Nat.{mul-le-mul_right}
use nek_os.Base.{ℕ, ◌+◌, ◌-◌, ◌*◌, ◌%◌, ◌^◌, ◌≤◌, ◌<◌, some, ◌≡◌, ◌≢◌, ◌⊎◌, arith}
use nek_os.Base.Bytes
use nek_os.Fs.{Disk, Fat32Fs, block_size, ramdisk_size, fat_next, cluster_to_sector, spc, fat32_eoc}
use nek_os.Fs.Fat.{HasEntry}
use nek_os.Fs.Sectors

-- The table lies before the data, and the data on the disk.
pub record IsVolume (fs : Fat32Fs) : Type 0 where
  pub table_in : fs.fat_start * block_size + fs.total_clusters * 4 ≤ fs.data_start * block_size
  pub data_in : (fs.data_start + fs.total_clusters * spc fs) * block_size ≤ ramdisk_size

-- The address of a cluster's data.
abbrev pub data_address : Fat32Fs → ℕ → ℕ
data_address fs c = (fs.data_start + (c - 2) * spc fs) * block_size

abbrev pub IsCluster : Fat32Fs → ℕ → Type 0
IsCluster fs c = (2 ≤ c) × (c < fs.total_clusters)

pub cluster_in :
    {fs : Fat32Fs} (c : ℕ)
    → IsVolume fs
    → IsCluster fs c
    → (data_address fs c + spc fs * block_size ≤ ramdisk_size) × HasEntry fs c
cluster_in {fs} c v (l, h) =
    let rows = mul-le-mul_right (spc fs) (below c h) in
    (omega (arith, rows, v.data_in), omega (arith, v.table_in, v.data_in))
  where
    below : {t : ℕ} (c : ℕ) → c < t → c - 2 + 1 ≤ t
    below c h = omega arith

pub cluster_to_sector_lem :
    {fs : Fat32Fs} (c : ℕ)
    → IsVolume fs
    → IsCluster fs c
    → cluster_to_sector fs c ≡ fs.data_start + (c - 2) * spc fs
unfolding cluster_to_sector
cluster_to_sector_lem {fs} c v (l, h) =
    let (inside, entry) = cluster_in c v (l, h) in
    let e : (c + (2 ^ 64 - 2)) % 2 ^ 64 ≡ c - 2 = omega (arith, entry) in
    rw e (omega (arith, inside))

-- What the allocation of the cluster `c` does.
pub record Allocates (fs : Fat32Fs) (c : ℕ) (d e : Disk) : Type 0 where
  pub marked : fat_next fs c e ≡ some fat32_eoc
  pub others :
      (other : ℕ) → IsCluster fs other → other ≢ c → fat_next fs other e ≡ fat_next fs other d
  pub cleared : (i : ℕ) → i < spc fs * block_size → e (data_address fs c + i) ≡ 0
  pub contents :
      (a : ℕ)
      → fs.data_start * block_size ≤ a
      → (a < data_address fs c) ⊎ (data_address fs c + spc fs * block_size ≤ a)
      → e a ≡ d a
