-- ===== src/Fs/ShortName.antt =====
-- Short names of the file server, user/programs/fs-server/src/main.rs: the checksum and the choice of
-- an 8.3 name for a long one.
use nek_os.Base.{
  ℕ, zero, suc, ◌+◌, ◌-◌, ◌*◌, ◌/◌, ◌%◌, Bool, true, false, ◌&&◌, ◌||◌, Option, none, some, List,
  [], ◌∷◌, ◌++◌, length, set, ltb, leb, ◌==◌, if◌then◌else◌,
}
use nek_os.Fs.{Disk, Fat32Fs}
use nek_os.Fs.Dir.{DirEntry, walk_dir}
use nek_os.Initrd.{same_bytes}

-- One round of the loop of `lfn_checksum`, on a `u8`.
abbrev pub checksum_step : ℕ → ℕ → ℕ
checksum_step sum b = ((sum / 2 + sum * 128 % 256) % 256 + b) % 256

unfoldable pub checksum_from : ℕ → List ℕ → ℕ
checksum_from sum [] = sum
checksum_from sum (b ∷ bs) = checksum_from (checksum_step sum b) bs

unfoldable pub lfn_checksum : List ℕ → ℕ
unfolding checksum_from
lfn_checksum = checksum_from 0

abbrev cons_before : ℕ → Option (List ℕ × List ℕ) → Option (List ℕ × List ℕ)
cons_before b none = none
cons_before b (some (before, behind)) = some (b ∷ before, behind)

-- `rfind`: what stands before and behind the last `sep`.
unfoldable pub split_last : ℕ → List ℕ → Option (List ℕ × List ℕ)
split_last sep [] = none
split_last sep (b ∷ bs) = elim (split_last sep bs) [
  | none ↦ if b == sep then some ([], bs) else none
  | some r ↦ cons_before b (some r)
]

-- `is_ascii_alphanumeric() || == b'_'`
abbrev pub is_plain : ℕ → Bool
is_plain b =
    (leb b'0' b && leb b b'9')
    || ((leb b'A' b && leb b b'Z') || ((leb b'a' b && leb b b'z') || b == b'_'))

unfoldable pub all_plain : List ℕ → Bool
all_plain [] = true
all_plain (b ∷ bs) = is_plain b && all_plain bs

unfoldable pub keep_plain : List ℕ → List ℕ
keep_plain [] = []
keep_plain (b ∷ bs) = let rest = keep_plain bs in if is_plain b then b ∷ rest else rest

abbrev pub to_ascii_uppercase : ℕ → ℕ
to_ascii_uppercase b = if leb b'a' b && leb b b'z' then b - 32 else b

-- The capitals of a name in a field of `n` bytes.
unfoldable pub field : ℕ → List ℕ → List ℕ
field zero bs = []
field (suc n) [] = b' ' ∷ field n []
field (suc n) (b ∷ bs) = to_ascii_uppercase b ∷ field n bs

-- The parts of a name before and behind its last dot.
unfoldable pub name_parts : List ℕ → List ℕ × List ℕ
unfolding split_last
name_parts long_name = elim (split_last b'.' long_name) [ none ↦ (long_name, []) | some r ↦ r ]

unfoldable pub is_valid_83 : List ℕ × List ℕ → Bool
unfolding all_plain
is_valid_83 (name, ext) =
    ltb 0 (length name)
    && (leb (length name) 8 && (leb (length ext) 3 && (all_plain name && all_plain ext)))

-- The callback that looks for the name of eleven bytes.
abbrev conflicts : List ℕ → Bool → DirEntry → List ℕ → Bool
conflicts short found e name = found || same_bytes (e.name ++ e.ext) short

-- The next name to try after the `n`-th conflict.
unfoldable pub bump : ℕ → List ℕ → List ℕ
bump n base = if ltb n 10 then set base 7 (b'0' + n) else set (set base 6 b'~') 7 (b'0' + n)

-- The `rounds` rounds of the loop from the `n`-th on.
unfoldable pub avoid : ℕ → ℕ → Fat32Fs → ℕ → ℕ → List ℕ → List ℕ → Disk → List ℕ
unfolding walk_dir same_bytes bump
avoid zero n fs fuel dir base ext d = base
avoid (suc rounds) n fs fuel dir base ext d =
    elim ((walk_dir (conflicts (base ++ ext)) fuel fs dir false d).1) [
      | false ↦ base
      | true ↦ avoid rounds (n + 1) fs fuel dir (bump n base) ext d
    ]

-- `make_short_name`: name and extension
unfoldable pub make_short_name : ℕ → Fat32Fs → List ℕ → ℕ → Disk → List ℕ × List ℕ
unfolding name_parts is_valid_83 keep_plain field avoid
make_short_name fuel fs long_name dir d =
    let (name, ext) = name_parts long_name in
    if is_valid_83 (name, ext) then (field 8 name, field 3 ext) else (
      avoid 99 1 fs fuel dir (field 6 (keep_plain name) ++ b'~' ∷ b'1' ∷ []) (field 3 ext) d,
      field 3 ext,
    )
