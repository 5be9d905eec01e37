-- ===== src/Fs/Entries.antt =====
-- Walks of directories by the file server, user/programs/fs-server/src/main.rs, against the list of
-- their entries.
use nek_os.Base.{
  ℕ, zero, suc, ◌+◌, Bool, Option, none, some, List, [], ◌∷◌, ◌++◌, get_or, ◌==◌, if◌then◌else◌,
  Bool-cases, Option-cases, ◌≡◌, refl, sym, ap, ◌∙◌, inl, inr,
}
use nek_os.Fs.{Disk, Fat32Fs, block_size, disk_read, cluster_to_sector, fat_next, link, spc}
use nek_os.Fs.Dir.{
  DirEntry, Lfn, no_lfn, Walk, more, ended, failed, entry_bytes, entries_per_sector, walk_entry,
  walk_entries, walk_sectors, walk_clusters, walk_dir, result, same_name, keep_first, and_on,
  entry_name, read_dir_entry, find_entry,
}

-- Entries with their names, in the order of the directory.
abbrev pub Entries : Type 0
Entries = List (DirEntry × List ℕ)

abbrev pub collect : Entries → DirEntry → List ℕ → Entries
collect es e name = es ++ (e, name) ∷ []

module _ {A : Type 0} (f : A → DirEntry → List ℕ → A) where
  -- A callback on one entry after the other.
  abbrev pub fold : A → Entries → A
  fold a [] = a
  fold a ((e, name) ∷ es) = fold (f a e name) es

  fold-collect :
      (a : A) (es : Entries) (e : DirEntry) (name : List ℕ)
      → fold a (collect es e name) ≡ f (fold a es) e name
  fold-collect a [] e name = refl
  fold-collect a ((e2, name2) ∷ es) e name = fold-collect (f a e2 name2) es e name

  unfoldable pub map_walk : A → Walk Entries → Walk A
  map_walk a (more l es) = more l (fold a es)
  map_walk a (ended es) = ended (fold a es)
  map_walk a (failed es) = failed (fold a es)

  walk_entry-fold :
      (a : A) (b : List ℕ) (l : Lfn) (es : Entries)
      → walk_entry f b l (fold a es) ≡ map_walk a (walk_entry collect b l es)
  unfolding walk_entry map_walk
  walk_entry-fold a b l es = elim (Bool-cases (get_or b 0 0 == 0)) [
    | inl h ↦ rw (h, walk_entry) refl
    | inr h ↦ elim (Bool-cases (get_or b 0 0 == 0xE5)) [
      | inl h2 ↦ rw (h, walk_entry, h2) refl
      | inr h2 ↦ elim (Bool-cases (get_or b 11 0 == 0x0F)) [
        | inl h3 ↦ rw (h, walk_entry, h2, h3) refl
        | inr h3 ↦
            rw (h, walk_entry, h2, h3)
              (ap (more (record l { len = 0 }))
                (sym (fold-collect a es (read_dir_entry b) (entry_name b l))))
      ]
    ]
  ]

  and_on-fold :
      (a : A) (w : Walk Entries) (k : Lfn → A → Walk A) (k2 : Lfn → Entries → Walk Entries)
      → ((l : Lfn) (es : Entries) → k l (fold a es) ≡ map_walk a (k2 l es))
      → and_on (map_walk a w) k ≡ map_walk a (and_on w k2)
  unfolding map_walk
  and_on-fold a (more l es) k k2 same = same l es
  and_on-fold a (ended es) k k2 same = refl
  and_on-fold a (failed es) k k2 same = refl

  pub walk_entries-fold :
      (n : ℕ) (a : A) (i : ℕ) (buf : List ℕ) (l : Lfn) (es : Entries)
      → walk_entries f n i buf l (fold a es) ≡ map_walk a (walk_entries collect n i buf l es)
  unfolding walk_entries map_walk
  walk_entries-fold zero a i buf l es = refl
  walk_entries-fold (suc n) a i buf l es =
      ap (λ w. and_on w λ l2 b. walk_entries f n (i + 1) buf l2 b)
        (walk_entry-fold a (entry_bytes buf i) l es)
      ∙ and_on-fold a (walk_entry collect (entry_bytes buf i) l es) _ _
          (λ l2 es2. walk_entries-fold n a (i + 1) buf l2 es2)

  pub walk_sectors-fold :
      (n : ℕ) (a : A) (sector : ℕ) (l : Lfn) (es : Entries) (d : Disk)
      → walk_sectors f n sector l (fold a es) d ≡ map_walk a (walk_sectors collect n sector l es d)
  unfolding walk_sectors map_walk
  walk_sectors-fold zero a sector l es d = refl
  walk_sectors-fold (suc n) a sector l es d = elim (Option-cases (disk_read sector block_size d)) [
    | inl e ↦ rw (e, walk_sectors) refl
    | inr (buf, e) ↦
        rw (e, walk_sectors)
          (ap (λ w. and_on w λ l2 b. walk_sectors f n (sector + 1) l2 b d)
              (walk_entries-fold entries_per_sector a 0 buf l es)
            ∙ and_on-fold a (walk_entries collect entries_per_sector 0 buf l es) _ _
                (λ l2 es2. walk_sectors-fold n a (sector + 1) l2 es2 d))
  ]

  pub walk_clusters-fold :
      (fuel : ℕ) (a : A) (fs : Fat32Fs) (cluster : ℕ) (l : Lfn) (es : Entries) (d : Disk)
      → walk_clusters f fuel fs cluster l (fold a es) d
        ≡ map_walk a (walk_clusters collect fuel fs cluster l es d)
  unfolding walk_clusters map_walk
  walk_clusters-fold zero a fs cluster l es d = refl
  walk_clusters-fold (suc fuel) a fs cluster l es d =
      let sector = cluster_to_sector fs cluster in
      ap
        (λ w. and_on w λ l2 b. elim (link (fat_next fs cluster d)) [
          | none ↦ ended b
          | some next ↦ walk_clusters f fuel fs next l2 b d
        ])
        (walk_sectors-fold (spc fs) a sector l es d)
      ∙ and_on-fold a (walk_sectors collect (spc fs) sector l es d) _ _ (λ l2 es2.
        elim (Option-cases (link (fat_next fs cluster d))) [
          | inl e ↦ rw e refl
          | inr (next, e) ↦ rw e (walk_clusters-fold fuel a fs next l2 es2 d)
        ])

  result-map_walk :
      (a : A) (w : Walk Entries)
      → result (map_walk a w) ≡ (let (ok, es) = result w in (ok, fold a es))
  unfolding map_walk
  result-map_walk a (more l es) = refl
  result-map_walk a (ended es) = refl
  result-map_walk a (failed es) = refl

  -- A walk with any callback is the callback on each entry of the directory in turn, where the entries
  -- and their names are those that a callback which only collects them is given.
  walk_dir-fold :
      (fuel : ℕ) (fs : Fat32Fs) (dir_cluster : ℕ) (a : A) (d : Disk)
      → let (ok, es) = walk_dir collect fuel fs dir_cluster [] d in
        walk_dir f fuel fs dir_cluster a d ≡ (ok, fold a es)
  unfolding walk_dir
  walk_dir-fold fuel fs dir_cluster a d =
      ap result (walk_clusters-fold fuel a fs dir_cluster no_lfn [] d)
      ∙ result-map_walk a (walk_clusters collect fuel fs dir_cluster no_lfn [] d)

-- The first entry of a name, in any case of its letters.
abbrev pub first_named : List ℕ → Entries → Option (DirEntry × List ℕ)
first_named search [] = none
first_named search ((e, name) ∷ es) =
    if same_name name search then some (e, name) else first_named search es

pub keep_first-some :
    (search : List ℕ) (r : DirEntry × List ℕ) (es : Entries)
    → fold (keep_first search) (some r) es ≡ some r
unfolding keep_first
keep_first-some search r [] = refl
keep_first-some search r ((e, name) ∷ es) = keep_first-some search r es

keep_first_lem :
    (search : List ℕ) (es : Entries) → fold (keep_first search) none es ≡ first_named search es
unfolding keep_first
keep_first_lem search [] = refl
keep_first_lem search ((e, name) ∷ es) = elim (Bool-cases (same_name name search)) [
  | inl h ↦ rw h (keep_first-some search (e, name) es)
  | inr h ↦ rw h (keep_first_lem search es)
]

-- The search in a directory answers the first of its entries whose name is the one looked for, in any
-- case of the letters, and `none` where there is none.
pub find_entry_lem :
    (fuel : ℕ) (fs : Fat32Fs) (dir_cluster : ℕ) (name : List ℕ) (d : Disk)
    → find_entry fuel fs dir_cluster name d
      ≡ first_named name (walk_dir collect fuel fs dir_cluster [] d).1
unfolding find_entry
find_entry_lem fuel fs dir_cluster name d =
    ap (λ (r : Bool × Option (DirEntry × List ℕ)). r.1)
      (walk_dir-fold (keep_first name) fuel fs dir_cluster none d)
    ∙ keep_first_lem name (walk_dir collect fuel fs dir_cluster [] d).1
