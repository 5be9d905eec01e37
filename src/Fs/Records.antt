-- ===== src/Fs/Records.antt =====
-- A directory of the file server, user/programs/fs-server/src/main.rs, as the records of 32 bytes of its
-- chain, and the walk over it as a walk over their list.
use nek_os.Base.{
  ℕ, zero, suc, ◌+◌, ◌-◌, ◌*◌, ◌≤◌, true, List, [], ◌∷◌, ◌++◌, length, take, drop, ◌≡◌, refl, sym,
  ap, ◌∙◌, arith, ==_refl,
}
use nek_os.Fs.{Disk, Fat32Fs, block_size, ramdisk_size, bytes_at, cluster_to_sector, spc}
use nek_os.Fs.Dir.{
  DirEntry, Lfn, no_lfn, Walk, more, ended, failed, entries_per_sector, entry_bytes, walk_entry,
  walk_entries, walk_sectors, walk_clusters, walk_dir, result, and_on,
}
use nek_os.Fs.Sectors
use nek_os.Fs.Volume.{IsVolume, IsCluster, data_address, cluster_in, cluster_to_sector_lem}
use nek_os.Fs.Chain.{Chain, last, step, has}

-- The `n` records from the address `a` on.
unfoldable pub records : ℕ → ℕ → Disk → List (List ℕ)
unfolding bytes_at
records zero a d = []
records (suc n) a d = bytes_at 32 a d ∷ records n (a + 32) d

-- The records of the clusters of a chain.
unfoldable pub records_of : Fat32Fs → List ℕ → Disk → List (List ℕ)
unfolding records
records_of fs [] d = []
records_of fs (c ∷ cs) d = records (spc fs * 16) (data_address fs c) d ++ records_of fs cs d

records_plus :
    (m n a : ℕ) (d : Disk) → records (m + n) a d ≡ records m a d ++ records n (a + m * 32) d
unfolding records
records_plus zero n a d =
    let e : a + 0 * 32 ≡ a = omega arith in let z : 0 + n ≡ n = omega arith in rw (e, z) refl
records_plus (suc m) n a d =
    let e : a + 32 + m * 32 ≡ a + suc m * 32 = omega arith in
    let z : suc m + n ≡ suc (m + n) = omega arith in
    rw z
      (ap (λ (rs : List (List ℕ)). bytes_at 32 a d ∷ rs) (rw (← e) (records_plus m n (a + 32) d)))

take-bytes_at : (k n a : ℕ) (d : Disk) → k ≤ n → take k (bytes_at n a d) ≡ bytes_at k a d
unfolding bytes_at
take-bytes_at zero n a d h = refl
take-bytes_at (suc k) zero a d h = absurd (omega arith)
take-bytes_at (suc k) (suc n) a d h =
    ap (λ (bs : List ℕ). d a ∷ bs) (take-bytes_at k n (a + 1) d (omega arith))

drop-bytes_at : (k n a : ℕ) (d : Disk) → drop k (bytes_at (k + n) a d) ≡ bytes_at n (a + k) d
unfolding bytes_at
drop-bytes_at zero n a d =
    let e : a + 0 ≡ a = omega arith in let z : 0 + n ≡ n = omega arith in rw (e, z) refl
drop-bytes_at (suc k) n a d =
    let e : a + 1 + k ≡ a + suc k = omega arith in
    let z : suc k + n ≡ suc (k + n) = omega arith in rw (← e, z) (drop-bytes_at k n (a + 1) d)

entry_at :
    (i a : ℕ) (d : Disk)
    → i + 1 ≤ 16
    → entry_bytes (bytes_at block_size a d) i ≡ bytes_at 32 (a + i * 32) d
entry_at i a d h =
    let e : block_size ≡ i * 32 + (block_size - i * 32) = omega arith in
    ap (λ (n : ℕ). take 32 (drop (i * 32) (bytes_at n a d))) e
    ∙ ap (take 32) (drop-bytes_at (i * 32) (block_size - i * 32) a d)
    ∙ take-bytes_at 32 (block_size - i * 32) (a + i * 32) d (omega arith)

here : (c : ℕ) (cs : List ℕ) → has c (c ∷ cs) ≡ true
here c cs = rw (==_refl c) refl

there : (i c : ℕ) (cs : List ℕ) → has i cs ≡ true → has i (c ∷ cs) ≡ true
there i c cs m = ground arith

module _ {A : Type 0} (f : A → DirEntry → List ℕ → A) where
  -- The walk over a list of records.
  unfoldable pub scan : List (List ℕ) → Lfn → A → Walk A
  scan [] l a = more l a
  scan (e ∷ es) l a = and_on (walk_entry f e l a) (λ l2 b. scan es l2 b)

  scan_nil : (l : Lfn) (a : A) → a ≡ (result (scan [] l a)).1
  unfolding scan
  scan_nil l a = refl

  and_on_assoc :
      (w : Walk A) (g h : Lfn → A → Walk A)
      → and_on (and_on w g) h ≡ and_on w (λ l a. and_on (g l a) h)
  and_on_assoc (more l a) g h = refl
  and_on_assoc (ended a) g h = refl
  and_on_assoc (failed a) g h = refl

  and_on-same :
      (w : Walk A) (g h : Lfn → A → Walk A)
      → ((l : Lfn) (a : A) → g l a ≡ h l a)
      → and_on w g ≡ and_on w h
  and_on-same (more l a) g h same = same l a
  and_on-same (ended a) g h same = refl
  and_on-same (failed a) g h same = refl

  scan-append :
      (es fs' : List (List ℕ)) (l : Lfn) (a : A)
      → scan (es ++ fs') l a ≡ and_on (scan es l a) (λ l2 b. scan fs' l2 b)
  unfolding scan
  scan-append [] fs' l a = refl
  scan-append (e ∷ es) fs' l a =
      and_on-same (walk_entry f e l a) _ _ (λ l2 b. scan-append es fs' l2 b)
      ∙ sym (and_on_assoc (walk_entry f e l a) _ _)

  walk_entries-scan :
      (n i a : ℕ) (l : Lfn) (x : A) (d : Disk)
      → i + n ≤ 16
      → walk_entries f n i (bytes_at block_size a d) l x ≡ scan (records n (a + i * 32) d) l x
  unfolding walk_entries scan records
  walk_entries-scan zero i a l x d h = refl
  walk_entries-scan (suc n) i a l x d h =
      let e : a + (i + 1) * 32 ≡ a + i * 32 + 32 = omega arith in
      ap
        (λ (b : List ℕ).
          and_on (walk_entry f b l x)
            (λ l2 y. walk_entries f n (i + 1) (bytes_at block_size a d) l2 y))
        (entry_at i a d (omega arith))
      ∙ and_on-same (walk_entry f (bytes_at 32 (a + i * 32) d) l x) _ _
          (λ l2 y. rw (← e) (walk_entries-scan n (i + 1) a l2 y d (omega arith)))

  walk_sectors-scan :
      (n sector : ℕ) (l : Lfn) (x : A) (d : Disk)
      → (sector + n) * block_size ≤ ramdisk_size
      → walk_sectors f n sector l x d ≡ scan (records (n * 16) (sector * block_size) d) l x
  unfolding walk_sectors scan records
  walk_sectors-scan zero sector l x d h = refl
  walk_sectors-scan (suc n) sector l x d h =
      let a = sector * block_size in
      let split : suc n * 16 ≡ 16 + n * 16 = omega arith in
      let next : (sector + 1) * block_size ≡ a + 16 * 32 = omega arith in
      let here : walk_entries f entries_per_sector 0 (bytes_at block_size a d) l x
          ≡ scan (records 16 a d) l x =
        let z : a + 0 * 32 ≡ a = omega arith in
        walk_entries-scan 16 0 a l x d (omega arith)
        ∙ ap (λ (b : ℕ). scan (records 16 b d) l x) z in
      rw (Sectors.disk_read_lem sector block_size d (omega arith), walk_sectors)
        (ap (λ (w : Walk A). and_on w (λ l2 y. walk_sectors f n (sector + 1) l2 y d)) here
          ∙ and_on-same (scan (records 16 a d) l x) _ _ (λ l2 y.
            walk_sectors-scan n (sector + 1) l2 y d (omega arith)
            ∙ ap (λ (b : ℕ). scan (records (n * 16) b d) l2 y) next)
          ∙ sym (scan-append (records 16 a d) (records (n * 16) (a + 16 * 32) d) l x)
          ∙ ap (λ (rs : List (List ℕ)). scan rs l x) (sym (records_plus 16 (n * 16) a d))
          ∙ ap (λ (m : ℕ). scan (records m a d) l x) (sym split))

  value-and_on :
      (w : Walk A) (g h : Lfn → A → Walk A)
      → ((l : Lfn) (a : A) → (result (g l a)).1 ≡ (result (h l a)).1)
      → (result (and_on w g)).1 ≡ (result (and_on w h)).1
  value-and_on (more l a) g h same = same l a
  value-and_on (ended a) g h same = refl
  value-and_on (failed a) g h same = refl

  one_cluster :
      (fs : Fat32Fs) (c : ℕ) (l : Lfn) (x : A) (d : Disk)
      → IsVolume fs
      → IsCluster fs c
      → walk_sectors f (spc fs) (cluster_to_sector fs c) l x d
        ≡ scan (records (spc fs * 16) (data_address fs c) d) l x
  one_cluster fs c l x d v cl =
      let (inside, entry) = cluster_in c v cl in
      rw (cluster_to_sector_lem c v cl) (
        walk_sectors-scan (spc fs) (fs.data_start + (c - 2) * spc fs) l x d (omega (arith, inside)))

  -- The walk along a chain gives what the records of its clusters give.
  walk_clusters-scan :
      (fuel : ℕ) (fs : Fat32Fs) (c : ℕ) (cs : List ℕ) (l : Lfn) (x : A) (d : Disk)
      → IsVolume fs
      → Chain fs d c cs
      → ((i : ℕ) → has i cs ≡ true → IsCluster fs i)
      → length cs ≤ fuel
      → (result (walk_clusters f fuel fs c l x d)).1 ≡ (result (scan (records_of fs cs d) l x)).1
  unfolding walk_clusters records_of
  walk_clusters-scan zero fs c _ l x d v (last {v = n} h p e) all enough = absurd (omega arith)
  walk_clusters-scan zero fs c _ l x d v (step {cs = cs} h p e out rest) all enough =
      absurd (omega arith)
  walk_clusters-scan (suc fuel) fs c _ l x d v (last {v = n} h p e) all enough =
      let rs = records (spc fs * 16) (data_address fs c) d in
      rw (p, e)
        (ap (λ (w : Walk A). (result (and_on w (λ l2 b. ended b))).1)
            (one_cluster fs c l x d v (all c (here c [])))
          ∙ value-and_on (scan rs l x) _ _ (λ l2 b. scan_nil l2 b)
          ∙ ap (λ (w : Walk A). (result w).1) (sym (scan-append rs [] l x)))
  walk_clusters-scan (suc fuel) fs c _ l x d v (step {n = n} {cs = cs} h p e out rest) all enough =
      let rs = records (spc fs * 16) (data_address fs c) d in
      rw (p, e)
        (ap (λ (w : Walk A). (result (and_on w (λ l2 b. walk_clusters f fuel fs n l2 b d))).1)
            (one_cluster fs c l x d v (all c (here c cs)))
          ∙ value-and_on (scan rs l x) _ _ (λ l2 b.
            walk_clusters-scan fuel fs n cs l2 b d v rest (λ i m. all i (there i c cs m))
              (omega arith))
          ∙ ap (λ (w : Walk A). (result w).1) (sym (scan-append rs (records_of fs cs d) l x)))

  pub walk_dir-scan :
      (fuel : ℕ) (fs : Fat32Fs) (c : ℕ) (cs : List ℕ) (x : A) (d : Disk)
      → IsVolume fs
      → Chain fs d c cs
      → ((i : ℕ) → has i cs ≡ true → IsCluster fs i)
      → length cs ≤ fuel
      → (walk_dir f fuel fs c x d).1 ≡ (result (scan (records_of fs cs d) no_lfn x)).1
  unfolding walk_dir
  walk_dir-scan fuel fs c cs x d v chain all enough =
      walk_clusters-scan fuel fs c cs no_lfn x d v chain all enough
