-- ===== src/Fs/Alloc.antt =====
-- Allocation of clusters by the file server, user/programs/fs-server/src/main.rs.
use nek_os.Base.{
  ℕ, zero, suc, ◌+◌, ◌-◌, ◌*◌, ◌≤◌, ◌<◌, true, false, Option, none, some, length, get_or,
  length-replicate, get_or-replicate, ltb, ◌==◌, ◌≡◌, refl, ap, subst, ◌≢◌, ◌⊎◌, inl, inr, arith,
  Bool-cases,
}
use nek_os.Fs.{
  Disk, Fat32Fs, block_size, ramdisk_size, put_bytes, fat_next, is_free, find_free_from,
  find_free_cluster, zero_block, zero_sectors,
}
use nek_os.Fs.Sectors

-- What a search among the `n` clusters from `c` on comes to.
abbrev pub Finds : Fat32Fs → ℕ → ℕ → Disk → Option ℕ → Type 0
Finds fs n c d none = (i : ℕ) → c ≤ i → i < c + n → fat_next fs i d ≢ some 0
Finds fs n c d (some r) =
    (c ≤ r)
    × (r < c + n)
    × (fat_next fs r d ≡ some 0)
    × ((i : ℕ) → c ≤ i → i < r → fat_next fs i d ≢ some 0)

is_free-true : (o : Option ℕ) → is_free o ≡ true → o ≡ some 0
is_free-true none h = cc
is_free-true (some v) h = ap some (ground arith)

is_free-false : (o : Option ℕ) → is_free o ≡ false → o ≢ some 0
is_free-false none h e = cc
is_free-false (some zero) h e = cc
is_free-false (some (suc v)) h e = cc

-- One more cluster in front that is not free.
taken_behind :
    (fs : Fat32Fs) (c m : ℕ) (d : Disk)
    → fat_next fs c d ≢ some 0
    → ((i : ℕ) → c + 1 ≤ i → i < m → fat_next fs i d ≢ some 0)
    → (i : ℕ) → c ≤ i
    → i < m
    → fat_next fs i d ≢ some 0
taken_behind fs c m d taken rest i l h = elim (Bool-cases (c == i)) [
  | inl same ↦ let e : c ≡ i = ground arith in subst (λ (j : ℕ). fat_next fs j d ≢ some 0) e taken
  | inr other ↦ rest i (ground arith) h
]

Finds-behind :
    (fs : Fat32Fs) (n c : ℕ) (d : Disk) (o : Option ℕ)
    → fat_next fs c d ≢ some 0
    → Finds fs n (c + 1) d o
    → Finds fs (suc n) c d o
Finds-behind fs n c d none taken rest =
    taken_behind fs c (c + suc n) d taken λ i l h. rest i l (omega arith)
Finds-behind fs n c d (some r) taken (l, h, free, first) =
    (omega arith, omega arith, free, taken_behind fs c r d taken first)

find_free_from_lem : (fs : Fat32Fs) (n c : ℕ) (d : Disk) → Finds fs n c d (find_free_from fs n c d)
unfolding find_free_from
find_free_from_lem fs zero c d = λ i l h. absurd (omega arith)
find_free_from_lem fs (suc n) c d = elim (Bool-cases (is_free (fat_next fs c d))) [
  | inl free ↦
      rw (free, Finds)
        (omega arith, omega arith, is_free-true _ free, λ i l h. absurd (omega arith))
  | inr taken ↦
      rw (taken, Finds)
        (Finds-behind fs n c d _ (is_free-false _ taken) (find_free_from_lem fs n (c + 1) d))
]

-- The search answers the lowest cluster from 2 on and below `total_clusters` whose entry is zero, and
-- `none` only where there is no such cluster.
pub find_free_cluster_lem :
    (fs : Fat32Fs) (d : Disk) → Finds fs (fs.total_clusters - 2) 2 d (find_free_cluster fs d)
unfolding find_free_cluster
find_free_cluster_lem fs d = find_free_from_lem fs (fs.total_clusters - 2) 2 d

pub length-zero_block : length zero_block ≡ block_size
unfolding zero_block
length-zero_block = length-replicate {A = ℕ} block_size 0

get_or-zero_block : (i : ℕ) → get_or zero_block i 0 ≡ 0
unfolding zero_block
get_or-zero_block i = get_or-replicate {A = ℕ} block_size i 0

pub zero_sectors_lem :
    (n sector : ℕ) (d : Disk)
    → (sector + n) * block_size ≤ ramdisk_size
    → let (o, e) = zero_sectors n sector d in
      (o ≡ some tt)
      × ((a : ℕ) → sector * block_size ≤ a → a < (sector + n) * block_size → e a ≡ 0)
      × ((a : ℕ) → (a < sector * block_size) ⊎ ((sector + n) * block_size ≤ a) → e a ≡ d a)
unfolding zero_sectors
zero_sectors_lem zero sector d h = (refl, λ a l k. absurd (omega arith), λ a out. refl)
zero_sectors_lem (suc n) sector d h =
    let o = sector * block_size in
    let one = put_bytes o zero_block d in
    let (ok, zeros, same) = zero_sectors_lem n (sector + 1) one (omega arith) in
    rw (Sectors.disk_write_lem sector zero_block d (omega (arith, length-zero_block, h))) (
      ok,
      λ a l k. elim (Bool-cases (ltb a (o + block_size))) [
        | inl here ↦
            let e : a ≡ o + (a - o) = ground arith in
            let left : (a < (sector + 1) * block_size) ⊎ ((sector + 1 + n) * block_size ≤ a) =
              inl (ground arith) in
            rw
              (
                same a left,
                e,
                Sectors.put_bytes-in o zero_block d (a - o) (ground (arith, length-zero_block)),
              )
              (get_or-zero_block (a - o))
        | inr there ↦ zeros a (ground arith) (omega arith)
      ],
      λ a out.
          let left : (a < o) ⊎ (o + length zero_block ≤ a) = ground (arith, length-zero_block) in
          let right : (a < (sector + 1) * block_size) ⊎ ((sector + 1 + n) * block_size ≤ a) =
            ground arith in
          rw (same a right) (Sectors.put_bytes-out o zero_block d a left),
    )
