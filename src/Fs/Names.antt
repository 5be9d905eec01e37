-- ===== src/Fs/Names.antt =====
-- Short names of the file server, user/programs/fs-server/src/main.rs, for names of letters, digits
-- and underscores.
use nek_os.Base.{
  ℕ, zero, suc, ◌≤◌, ◌<◌, Bool, true, false, ◌&&◌, none, List, [], ◌∷◌, map, length, get_or, leb,
  lt→ltb, ◌==◌, ◌≡◌, refl, ap, arith,
}
use nek_os.Fs.{Disk, Fat32Fs}
use nek_os.Fs.Dir.{until_space, same_name, to_ascii_lowercase}
use nek_os.Fs.ShortName.{
  split_last, is_plain, all_plain, to_ascii_uppercase, field, name_parts, is_valid_83,
  make_short_name,
}

both : (a b : Bool) → (a && b) ≡ true → (a ≡ true) × (b ≡ true)
both a b h = ground arith

plain_cons :
    (b : ℕ) (bs : List ℕ) → all_plain (b ∷ bs) ≡ true → (is_plain b ≡ true) × (all_plain bs ≡ true)
unfolding all_plain
plain_cons b bs h = both (is_plain b) (all_plain bs) h

used :
    (b : ℕ)
    → is_plain b ≡ true
    → ((to_ascii_uppercase b == 0) ≡ false) × ((to_ascii_uppercase b == 0xE5) ≡ false)
used b h = ground arith

no_dot : (b : ℕ) → is_plain b ≡ true → (b == b'.') ≡ false
no_dot b h = ground arith

split_last-none : (name : List ℕ) → all_plain name ≡ true → split_last b'.' name ≡ none
unfolding split_last all_plain
split_last-none [] h = refl
split_last-none (b ∷ bs) h =
    let (p, rest) = plain_cons b bs h in rw (split_last-none bs rest, split_last, no_dot b p) refl

pub length-field : (n : ℕ) (bs : List ℕ) → length (field n bs) ≡ n
unfolding field
length-field zero bs = refl
length-field (suc n) [] = ap suc (length-field n [])
length-field (suc n) (b ∷ bs) = ap suc (length-field n bs)

abbrev pub upper : List ℕ → List ℕ
upper = map to_ascii_uppercase

not_space : (b : ℕ) → is_plain b ≡ true → (to_ascii_uppercase b == b' ') ≡ false
not_space b h = ground arith

until_space-field_nil : (n : ℕ) → until_space (field n []) ≡ []
unfolding until_space field
until_space-field_nil zero = refl
until_space-field_nil (suc n) = refl

pub until_space-field :
    (n : ℕ) (name : List ℕ)
    → all_plain name ≡ true
    → length name ≤ n
    → until_space (field n name) ≡ upper name
unfolding until_space field all_plain
until_space-field n [] h l = until_space-field_nil n
until_space-field zero (b ∷ bs) h l = absurd (omega arith)
until_space-field (suc n) (b ∷ bs) h l =
    let (p, rest) = plain_cons b bs h in
    rw (not_space b p) (ap (◌∷◌ (to_ascii_uppercase b)) (until_space-field n bs rest (omega arith)))

same_letter : (b : ℕ) → (to_ascii_lowercase (to_ascii_uppercase b) == to_ascii_lowercase b) ≡ true
same_letter b = ground arith

pub same_name-upper : (name : List ℕ) → same_name (upper name) name ≡ true
unfolding same_name
same_name-upper [] = refl
same_name-upper (b ∷ bs) = rw (same_letter b) (same_name-upper bs)

-- The first byte of the field is that of an entry in use.
pub in_use :
    (name : List ℕ)
    → all_plain name ≡ true
    → 0 < length name
    → ((get_or (field 8 name) 0 0 == 0) ≡ false) × ((get_or (field 8 name) 0 0 == 0xE5) ≡ false)
unfolding field all_plain
in_use [] h l = absurd (omega arith)
in_use (b ∷ bs) h l = used b (plain_cons b bs h).0

pub make_short_name-plain :
    (fuel : ℕ) (fs : Fat32Fs) (name : List ℕ) (dir : ℕ) (d : Disk)
    → all_plain name ≡ true
    → 0 < length name
    → length name ≤ 8
    → make_short_name fuel fs name dir d ≡ (field 8 name, field 3 [])
unfolding make_short_name name_parts is_valid_83 all_plain
make_short_name-plain fuel fs name dir d h l k =
    let parts : name_parts name ≡ (name, []) = rw (split_last-none name h, name_parts) refl in
    let valid : is_valid_83 (name, []) ≡ true =
      rw (lt→ltb 0 (length name) l, le→leb (length name) 8 k, h) refl in
    rw (make_short_name, parts, valid) refl
  where
    le→leb : (a b : ℕ) → a ≤ b → leb a b ≡ true
    le→leb a b h = ground arith
