-- ===== src/Fs/Listing.antt =====
-- What the search in a directory of the file server, user/programs/fs-server/src/main.rs, answers,
-- against a list of the entries that the directory's records hold.
use nek_os.Base.{
  ℕ, ◌+◌, ◌≤◌, Bool, true, false, ◌&&◌, Option, none, some, List, [], ◌∷◌, ◌++◌, length, get_or,
  ◌==◌, if◌then◌else◌, Bool-cases, ◌≡◌, refl, sym, ap, ◌∙◌, ◌⊎◌, inl, inr, arith,
}
use nek_os.Fs.{Disk, Fat32Fs}
use nek_os.Fs.Dir.{
  DirEntry, Lfn, no_lfn, put_lfn, walk_entry, result, same_name, to_ascii_lowercase, entry_name,
  read_dir_entry, find_entry,
}
use nek_os.Fs.Volume.{IsVolume, IsCluster}
use nek_os.Fs.Chain.{Chain, has}
use nek_os.Fs.Entries.{Entries, collect, first_named, find_entry_lem}
use nek_os.Fs.Records.{records_of, scan, walk_dir-scan}

-- The entries of a list of records up to the one that begins with 0: no deleted ones, no records of
-- long names, and each of the others with its name, which `entry_name` makes of the long name that the
-- records before it have gathered, or else of its own.
unfoldable pub listing : List (List ℕ) → Lfn → Entries
listing [] l = []
listing (e ∷ es) l =
    let rest = listing es (record l { len = 0 }) in
    let named = listing es (put_lfn e l) in
    if get_or e 0 0 == 0
    then []
    else if get_or e 0 0 == 0xE5
    then rest
    else if get_or e 11 0 == 0x0F
    then named
    else (read_dir_entry e, entry_name e l) ∷ rest

append_one :
    (xs : Entries) (e : DirEntry × List ℕ) (ys : Entries) → (xs ++ e ∷ []) ++ ys ≡ xs ++ e ∷ ys
append_one [] e ys = refl
append_one (x ∷ xs) e ys = ap (λ (zs : Entries). x ∷ zs) (append_one xs e ys)

append_nil : (xs : Entries) → xs ≡ xs ++ []
append_nil [] = refl
append_nil (x ∷ xs) = ap (λ (zs : Entries). x ∷ zs) (append_nil xs)

scan-listing :
    (es : List (List ℕ)) (l : Lfn) (before : Entries)
    → (result (scan collect es l before)).1 ≡ before ++ listing es l
unfolding scan listing walk_entry
scan-listing [] l before = append_nil before
scan-listing (e ∷ es) l before = elim (Bool-cases (get_or e 0 0 == 0)) [
  | inl h ↦ rw h (append_nil before)
  | inr h ↦ elim (Bool-cases (get_or e 0 0 == 0xE5)) [
    | inl h2 ↦ rw (h, h2) (scan-listing es (record l { len = 0 }) before)
    | inr h2 ↦ elim (Bool-cases (get_or e 11 0 == 0x0F)) [
      | inl h3 ↦ rw (h, h2, h3) (scan-listing es (put_lfn e l) before)
      | inr h3 ↦
          rw (h, h2, h3)
            (scan-listing es (record l { len = 0 })
                (collect before (read_dir_entry e) (entry_name e l))
              ∙ append_one before (read_dir_entry e, entry_name e l)
                  (listing es (record l { len = 0 })))
    ]
  ]
]

-- Two bytes that are equal, or the capital and the small form of one letter.
abbrev pub Alike : ℕ → ℕ → Type 0
Alike a b =
    (a ≡ b) ⊎ ((b'A' ≤ a) × (a ≤ b'Z') × (b ≡ a + 32)) ⊎ ((b'A' ≤ b) × (b ≤ b'Z') × (a ≡ b + 32))

-- Names of one length that are alike byte for byte.
abbrev pub AlikeNames : List ℕ → List ℕ → Type 0
AlikeNames [] [] = Unit
AlikeNames [] (b ∷ bs) = ⊥
AlikeNames (a ∷ as') [] = ⊥
AlikeNames (a ∷ as') (b ∷ bs) = Alike a b × AlikeNames as' bs

lowercase-Alike : (a b : ℕ) → (to_ascii_lowercase a == to_ascii_lowercase b) ≡ true → Alike a b
lowercase-Alike a b h = ground arith

Alike-lowercase : (a b : ℕ) → Alike a b → (to_ascii_lowercase a == to_ascii_lowercase b) ≡ true
Alike-lowercase a b (inl e) = ground arith
Alike-lowercase a b (inr (inl (l, u, e))) = ground arith
Alike-lowercase a b (inr (inr (l, u, e))) = ground arith

both : (a b : Bool) → (a && b) ≡ true → (a ≡ true) × (b ≡ true)
both true true h = (refl, refl)
both true false h = cc
both false b h = cc

same_name-AlikeNames : (as' bs : List ℕ) → same_name as' bs ≡ true → AlikeNames as' bs
unfolding same_name
same_name-AlikeNames [] [] h = tt
same_name-AlikeNames [] (b ∷ bs) h = cc
same_name-AlikeNames (a ∷ as') [] h = cc
same_name-AlikeNames (a ∷ as') (b ∷ bs) h =
    let (p, q) = both (to_ascii_lowercase a == to_ascii_lowercase b) (same_name as' bs) h in
    (lowercase-Alike a b p, same_name-AlikeNames as' bs q)

AlikeNames-same_name : (as' bs : List ℕ) → AlikeNames as' bs → same_name as' bs ≡ true
unfolding same_name
AlikeNames-same_name [] [] h = refl
AlikeNames-same_name [] (b ∷ bs) h = elim h [ ]
AlikeNames-same_name (a ∷ as') [] h = elim h [ ]
AlikeNames-same_name (a ∷ as') (b ∷ bs) (p, q) =
    rw (Alike-lowercase a b p) (AlikeNames-same_name as' bs q)

-- No entry of a list has the name, in any case of its letters.
abbrev pub NoneNamed : List ℕ → Entries → Type 0
NoneNamed search [] = Unit
NoneNamed search (r ∷ es) = (AlikeNames r.1 search → ⊥) × NoneNamed search es

-- The first entry of a list with the name, in any case of its letters.
pub record FirstNamed (search : List ℕ) (es : Entries) (r : DirEntry × List ℕ) : Type 0 where
  pub before : Entries
  pub behind : Entries
  pub split : es ≡ before ++ r ∷ behind
  pub alike : AlikeNames r.1 search
  pub none_before : NoneNamed search before

not_alike : (name search : List ℕ) → same_name name search ≡ false → AlikeNames name search → ⊥
not_alike name search h a = clash (sym h ∙ AlikeNames-same_name name search a)
  where
    clash : false ≡ true → ⊥
    clash e = cc

-- What a search in a list of entries comes to.
abbrev pub Searched : List ℕ → Entries → Option (DirEntry × List ℕ) → Type 0
Searched search es none = NoneNamed search es
Searched search es (some r) = FirstNamed search es r

Searched-behind :
    (search : List ℕ) (x : DirEntry × List ℕ) (es : Entries) (o : Option (DirEntry × List ℕ))
    → (AlikeNames x.1 search → ⊥)
    → Searched search es o
    → Searched search (x ∷ es) o
Searched-behind search x es none n s = (n, s)
Searched-behind search x es (some r) n s = record {
  before = x ∷ s.before;
  behind = s.behind;
  split = ap (λ (zs : Entries). x ∷ zs) s.split;
  alike = s.alike;
  none_before = (n, s.none_before);
}

first_named-Searched : (search : List ℕ) (es : Entries) → Searched search es (first_named search es)
first_named-Searched search [] = tt
first_named-Searched search ((e, name) ∷ es) = elim (Bool-cases (same_name name search)) [
  | inl h ↦
      rw (h, Searched)
        (record {
          before = [];
          behind = es;
          split = refl;
          alike = same_name-AlikeNames name search h;
          none_before = tt;
        })
  | inr h ↦
      rw (h, Searched)
        (Searched-behind search (e, name) es (first_named search es) (not_alike name search h)
          (first_named-Searched search es))
]

-- On a volume, the search in a directory whose chain of clusters is no longer than the fuel reads the
-- records of these clusters in their order: it answers the first entry among them, before one that
-- begins with 0, whose name, as `entry_name` makes it of the record and of the long name before it, is
-- the one looked for up to the case of ASCII letters, and `none` where no entry has such a name.
pub find_entry-listing :
    (fuel : ℕ) (fs : Fat32Fs) (dir_cluster : ℕ) (cs name : List ℕ) (d : Disk)
    → IsVolume fs
    → Chain fs d dir_cluster cs
    → ((i : ℕ) → has i cs ≡ true → IsCluster fs i)
    → length cs ≤ fuel
    → Searched name (listing (records_of fs cs d) no_lfn) (find_entry fuel fs dir_cluster name d)
find_entry-listing fuel fs dir_cluster cs name d v chain all enough =
    let es = listing (records_of fs cs d) no_lfn in
    let found : find_entry fuel fs dir_cluster name d ≡ first_named name es =
      find_entry_lem fuel fs dir_cluster name d
      ∙ ap (first_named name) (
          walk_dir-scan collect fuel fs dir_cluster cs [] d v chain all enough
          ∙ scan-listing (records_of fs cs d) no_lfn []) in
    rw found (first_named-Searched name es)
