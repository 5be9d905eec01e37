-- ===== src/Fs/Kept.antt =====
-- Walks by `find_entry` of the file server, user/programs/fs-server/src/main.rs, that meet the entry
-- looked for first in a directory.
use nek_os.Base.{
  ℕ, suc, ◌+◌, Option, none, some, List, [], ◌≡◌, refl, ap, ◌∙◌, Option-cases, inl, inr,
}
use nek_os.Fs.{Disk, Fat32Fs, block_size, disk_read, cluster_to_sector, spc, fat_next, link}
use nek_os.Fs.Dir.{
  DirEntry, Lfn, no_lfn, Walk, more, ended, failed, and_on, result, entry_bytes, entries_per_sector,
  keep_first, walk_entry, walk_entries, walk_sectors, walk_clusters, walk_dir, find_entry,
}
use nek_os.Fs.Entries.{
  map_walk, walk_entries-fold, walk_sectors-fold, walk_clusters-fold, keep_first-some, collect,
}

abbrev Found : Type 0
Found = DirEntry × List ℕ

-- What the callback of a walk has.
abbrev value_of : Walk (Option Found) → Option Found
value_of (more l a) = a
value_of (ended a) = a
value_of (failed a) = a

result-value_of : (w : Walk (Option Found)) → (result w).1 ≡ value_of w
result-value_of (more l a) = refl
result-value_of (ended a) = refl
result-value_of (failed a) = refl

-- A walk that has found its entry keeps it.
module _ (name : List ℕ) (r : Found) where
  value_of-map_walk :
      (w : Walk (List Found)) → value_of (map_walk (keep_first name) (some r) w) ≡ some r
  unfolding map_walk
  value_of-map_walk (more l es) = keep_first-some name r es
  value_of-map_walk (ended es) = keep_first-some name r es
  value_of-map_walk (failed es) = keep_first-some name r es

  value_of-and_on :
      (w : Walk (Option Found)) (k : Lfn → Option Found → Walk (Option Found))
      → value_of w ≡ some r
      → ((l : Lfn) → value_of (k l (some r)) ≡ some r)
      → value_of (and_on w k) ≡ some r
  value_of-and_on (more l a) k e rest = rw e (rest l)
  value_of-and_on (ended a) k e rest = e
  value_of-and_on (failed a) k e rest = e

  kept_entries :
      (n i : ℕ) (buf : List ℕ) (l : Lfn)
      → value_of (walk_entries (keep_first name) n i buf l (some r)) ≡ some r
  kept_entries n i buf l =
      ap value_of (walk_entries-fold (keep_first name) n (some r) i buf l [])
      ∙ value_of-map_walk (walk_entries collect n i buf l [])

  kept_sectors :
      (n sector : ℕ) (l : Lfn) (d : Disk)
      → value_of (walk_sectors (keep_first name) n sector l (some r) d) ≡ some r
  kept_sectors n sector l d =
      ap value_of (walk_sectors-fold (keep_first name) n (some r) sector l [] d)
      ∙ value_of-map_walk (walk_sectors collect n sector l [] d)

  kept_clusters :
      (fuel : ℕ) (fs : Fat32Fs) (cluster : ℕ) (l : Lfn) (d : Disk)
      → value_of (walk_clusters (keep_first name) fuel fs cluster l (some r) d) ≡ some r
  kept_clusters fuel fs cluster l d =
      ap value_of (walk_clusters-fold (keep_first name) fuel (some r) fs cluster l [] d)
      ∙ value_of-map_walk (walk_clusters collect fuel fs cluster l [] d)

  module _ (buf : List ℕ)
      (first : walk_entry (keep_first name) (entry_bytes buf 0) no_lfn none
        ≡ more no_lfn (some r)) where
    first_entry :
        (n : ℕ) → value_of (walk_entries (keep_first name) (suc n) 0 buf no_lfn none) ≡ some r
    unfolding walk_entries
    first_entry n =
        value_of-and_on (walk_entry (keep_first name) (entry_bytes buf 0) no_lfn none) _
          (ap value_of first) λ l. kept_entries n 1 buf l

    first_sector :
        (n sector : ℕ) (d : Disk)
        → disk_read sector block_size d ≡ some buf
        → value_of (walk_sectors (keep_first name) (suc n) sector no_lfn none d) ≡ some r
    unfolding walk_sectors
    first_sector n sector d e =
        rw (e, walk_sectors)
          (value_of-and_on (walk_entries (keep_first name) entries_per_sector 0 buf no_lfn none) _
            (first_entry 15) λ l. kept_sectors n (sector + 1) l d)

    first_sectors :
        (k n sector : ℕ) (d : Disk)
        → k ≡ suc n
        → disk_read sector block_size d ≡ some buf
        → value_of (walk_sectors (keep_first name) k sector no_lfn none d) ≡ some r
    first_sectors k n sector d one e = rw one (first_sector n sector d e)

    first_cluster_of :
        (fuel n : ℕ) (fs : Fat32Fs) (cluster : ℕ) (d : Disk)
        → spc fs ≡ suc n
        → disk_read (cluster_to_sector fs cluster) block_size d ≡ some buf
        → value_of (walk_clusters (keep_first name) (suc fuel) fs cluster no_lfn none d) ≡ some r
    unfolding walk_clusters
    first_cluster_of fuel n fs cluster d one e =
        let sector = cluster_to_sector fs cluster in
        value_of-and_on (walk_sectors (keep_first name) (spc fs) sector no_lfn none d) _
          (first_sectors (spc fs) n sector d one e)
          λ l. elim (Option-cases (link (fat_next fs cluster d))) [
            | inl h ↦ rw h refl
            | inr (next, h) ↦ rw h (kept_clusters fuel fs next l d)
          ]

    -- An entry found first in a directory is the answer.
    pub find_entry-first :
        (fuel n : ℕ) (fs : Fat32Fs) (cluster : ℕ) (d : Disk)
        → spc fs ≡ suc n
        → disk_read (cluster_to_sector fs cluster) block_size d ≡ some buf
        → find_entry (suc fuel) fs cluster name d ≡ some r
    unfolding find_entry walk_dir
    find_entry-first fuel n fs cluster d one e =
        result-value_of (walk_clusters (keep_first name) (suc fuel) fs cluster no_lfn none d)
        ∙ first_cluster_of fuel n fs cluster d one e
