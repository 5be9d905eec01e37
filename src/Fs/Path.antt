-- ===== src/Fs/Path.antt =====
-- Paths of the file server, user/programs/fs-server/src/main.rs: `resolve_path` and the string
-- functions it uses, on the bytes of a path.
use nek_os.Base.{
  ℕ, ◌/◌, ◌%◌, bit_and, Bool, true, false, ◌&&◌, ◌||◌, Option, none, some, List, [], ◌∷◌, length,
  drop, ◌==◌, if◌then◌else◌, not, replicate,
}
use nek_os.Fs.{Disk, Fat32Fs}
use nek_os.Fs.Dir.{DirEntry, first_cluster, find_entry}

abbrev pub attr_directory : ℕ
attr_directory = 0x10

-- `trim_start_matches('/')`
unfoldable pub trim_slashes : List ℕ → List ℕ
trim_slashes [] = []
trim_slashes (b ∷ bs) = let rest = trim_slashes bs in if b == b'/' then rest else b ∷ bs

abbrev prepend : ℕ → List (List ℕ) → List (List ℕ)
prepend b [] = (b ∷ []) ∷ []
prepend b (c ∷ cs) = (b ∷ c) ∷ cs

-- `split('/')`
unfoldable pub split_slash : List ℕ → List (List ℕ)
split_slash [] = [] ∷ []
split_slash (b ∷ bs) = let rest = split_slash bs in if b == b'/' then [] ∷ rest else prepend b rest

unfoldable pub has_byte : ℕ → List ℕ → Bool
has_byte b [] = false
has_byte b (c ∷ cs) = b == c || has_byte b cs

unfoldable pub starts_with : List ℕ → List ℕ → Bool
starts_with [] bs = true
starts_with (a ∷ as') [] = false
starts_with (a ∷ as') (b ∷ bs) = a == b && starts_with as' bs

-- `path[path.find(component).unwrap() + component.len()..]`: what follows the first occurrence.
unfoldable pub behind_first : List ℕ → List ℕ → List ℕ
unfolding starts_with
behind_first component [] = []
behind_first component (b ∷ bs) =
    let rest = behind_first component bs in
    if starts_with component (b ∷ bs) then drop (length component) (b ∷ bs) else rest

unfoldable pub root_entry : Fat32Fs → DirEntry
root_entry fs = record {
  name = replicate 8 b' ';
  ext = replicate 3 b' ';
  attr = attr_directory;
  first_cluster_hi = fs.root_cluster / 65536;
  first_cluster_lo = fs.root_cluster % 65536;
  file_size = 0;
}

-- The loop over the components from directory `cluster` on, with the last entry found.
unfoldable pub resolve_parts :
    ℕ
    → Fat32Fs
    → List ℕ
    → List (List ℕ)
    → ℕ
    → Option (DirEntry × List ℕ)
    → Disk
    → Option (DirEntry × List ℕ)
unfolding find_entry behind_first has_byte
resolve_parts fuel fs path [] cluster found d = found
resolve_parts fuel fs path ([] ∷ cs) cluster found d = resolve_parts fuel fs path cs cluster found d
resolve_parts fuel fs path ((b ∷ bs) ∷ cs) cluster found d =
    elim (find_entry fuel fs cluster (b ∷ bs) d) [
      | none ↦ none
      | some (e, name) ↦ elim (not (bit_and e.attr attr_directory == 0)) [
        | true ↦ resolve_parts fuel fs path cs (first_cluster e) (some (e, name)) d
        | false ↦ elim (has_byte b'/' (behind_first (b ∷ bs) path)) [
          | true ↦ none
          | false ↦ resolve_parts fuel fs path cs cluster (some (e, name)) d
        ]
      ]
    ]

unfoldable pub resolve_trimmed : ℕ → Fat32Fs → List ℕ → Disk → Option (DirEntry × List ℕ)
unfolding resolve_parts split_slash root_entry
resolve_trimmed fuel fs [] d = some (root_entry fs, b'/' ∷ [])
resolve_trimmed fuel fs (b ∷ bs) d =
    resolve_parts fuel fs (b ∷ bs) (split_slash (b ∷ bs)) fs.root_cluster none d

unfoldable pub resolve_path : ℕ → Fat32Fs → List ℕ → Disk → Option (DirEntry × List ℕ)
unfolding resolve_trimmed trim_slashes
resolve_path fuel fs path = resolve_trimmed fuel fs (trim_slashes path)
