-- ===== src/Initrd/Archive.antt =====
-- The loop of `init`, src/kernel/initrd.rs, ends.
use nek_os.Base.{
  ℕ, zero, suc, ◌+◌, ◌-◌, ◌*◌, ◌/◌, ◌^◌, ◌≤◌, ◌<◌, Bool, true, false, ◌&&◌, ◌||◌, Option, none,
  some, List, [], ◌∷◌, and_then, length, take, ltb, leb, ◌==◌, not, ◌≡◌, refl, inl, inr, arith,
  Bool-cases, Option-cases, leb→le, ltb→lt,
}
use nek_os.Base.Bits.Masks.{bit_and-mul_pow, bit_and-ones}
use nek_os.Initrd.{
  Entry, checked, header_size, align4, slice, same_bytes, magic, trailer, dot, max_files, hex,
  read_data, read_name, read_entry, scan, load_archive,
}

-- `align4` rounds up to the next multiple of four.
pub align4_lem : (v : ℕ) → v < 2 ^ 63 → align4 v ≡ (v + 3) / 4 * 4
align4_lem v h =
    omega (arith, bit_and-mul_pow 2 (v + 3) (2 ^ 62 - 1), bit_and-ones 62 ((v + 3) / 4))

and_then-some :
    {A B : Type 0} (o : Option A) (f : A → Option B) (b : B)
    → and_then o f ≡ some b
    → (a : A) × (o ≡ some a) × (f a ≡ some b)
and_then-some none f b e = cc
and_then-some (some a) f b e = (a, refl, e)

first_holds : (a b : Bool) → (a && b) ≡ true → a ≡ true
first_holds true b h = refl
first_holds false b h = h

room : (count : ℕ) (b : Bool) → (ltb count max_files && b) ≡ true → count + 1 ≤ max_files
room count b h =
    let l = ltb→lt count max_files (first_holds (ltb count max_files) b h) in omega arith

module _ (is_utf8 : List ℕ → Bool) where
  -- The entry's data ends inside the archive, and the next position is at or behind it.
  read_data-forward :
      (archive name : List ℕ) (name_end size : ℕ) (e : Entry) (next : ℕ)
      → length archive < 2 ^ 63
      → name_end ≤ length archive
      → read_data is_utf8 archive name name_end size ≡ some (e, next)
      → name_end ≤ next
  unfolding read_data
  read_data-forward archive name name_end size e next small fits h =
      let (stop, q, r) = and_then-some (checked (align4 name_end + size)) _ (e, next) h in
      elim (Bool-cases (ltb (length archive) stop)) [
        | inl l ↦ cc (rw l at r)
        | inr l ↦
            let last : next ≡ align4 stop = cc (rw l at r) in
            let sum : align4 name_end + size ≡ stop = ground arith in
            let inside : stop ≤ length archive = ground arith in
            omega (arith, align4_lem name_end (omega arith), align4_lem stop (omega arith))
      ]

  read_name-forward :
      (archive : List ℕ) (start namesize size : ℕ) (e : Entry) (next : ℕ)
      → length archive < 2 ^ 63
      → read_name is_utf8 archive start namesize size ≡ some (e, next)
      → start < next
  unfolding read_name
  read_name-forward archive start namesize size e next small h =
      let (stop, q, r) = and_then-some (checked (start + namesize)) _ (e, next) h in
      let sum : start + namesize ≡ stop = ground arith in
      elim (Bool-cases (namesize == 0 || ltb (length archive) stop)) [
        | inl l ↦ cc (rw l at r)
        | inr l ↦
            let name = slice archive start (stop - 1) in
            elim (Bool-cases (not (is_utf8 name) || same_bytes name trailer)) [
              | inl l' ↦ cc (rw (l, l') at r)
              | inr l' ↦
                  let some_name : 0 < namesize = ground arith in
                  let fits : stop ≤ length archive = ground arith in
                  omega (
                    arith,
                    read_data-forward archive name stop size e next small fits (rw (l, l') at r),
                  )
            ]
      ]

  -- An entry takes at least its header.
  read_entry-forward :
      (archive : List ℕ) (pos : ℕ) (e : Entry) (next : ℕ)
      → length archive < 2 ^ 63
      → read_entry is_utf8 archive pos ≡ some (e, next)
      → (pos + header_size < next) × (pos + header_size ≤ length archive)
  unfolding read_entry
  read_entry-forward archive pos e next small h =
      let header = slice archive pos (pos + header_size) in
      elim (Bool-cases
        (leb (pos + header_size) (length archive) && same_bytes (take 6 header) magic)) [
          | inr l ↦ cc (rw l at h)
          | inl l ↦
              let (namesize, q, r) =
                and_then-some (hex (slice header 94 102)) _ (e, next) (rw l at h) in
              let (size, q', r') = and_then-some (hex (slice header 54 62)) _ (e, next) r in
              (
                read_name-forward archive (pos + header_size) namesize size e next small r',
                leb→le (pos + header_size) (length archive) (first_holds _ _ l),
              )
        ]

  scan-end :
      (fuel : ℕ) (archive : List ℕ) (pos count : ℕ)
      → read_entry is_utf8 archive pos ≡ none
      → scan is_utf8 (suc fuel) archive pos count ≡ some []
  unfolding scan
  scan-end fuel archive pos count q = rw (q, scan) refl

  scan-keep :
      (fuel : ℕ) (archive : List ℕ) (pos count : ℕ) (e : Entry) (next : ℕ) (es : List Entry)
      → read_entry is_utf8 archive pos ≡ some (e, next)
      → (ltb count max_files && not (same_bytes e.name dot)) ≡ true
      → scan is_utf8 fuel archive next (count + 1) ≡ some es
      → scan is_utf8 (suc fuel) archive pos count ≡ some (e ∷ es)
  unfolding scan
  scan-keep fuel archive pos count e next es q b r = rw (q, scan, b, r, b) refl

  scan-drop :
      (fuel : ℕ) (archive : List ℕ) (pos count : ℕ) (e : Entry) (next : ℕ) (es : List Entry)
      → read_entry is_utf8 archive pos ≡ some (e, next)
      → (ltb count max_files && not (same_bytes e.name dot)) ≡ false
      → scan is_utf8 fuel archive next count ≡ some es
      → scan is_utf8 (suc fuel) archive pos count ≡ some es
  unfolding scan
  scan-drop fuel archive pos count e next es q b r = rw (q, scan, b, r, b) refl

  -- Enough fuel for the rest of the archive.
  scan-ends :
      (fuel : ℕ) (archive : List ℕ) (pos count : ℕ)
      → length archive < 2 ^ 63
      → length archive ≤ pos + fuel
      → count ≤ max_files
      → (es : List Entry) × (scan is_utf8 (suc fuel) archive pos count ≡ some es)
        × (length es + count ≤ max_files)
  scan-ends zero archive pos count small enough few =
      elim (Option-cases (read_entry is_utf8 archive pos)) [
        | inl q ↦ ([], scan-end _ archive pos count q, omega arith)
        | inr ((e, next), q) ↦
            absurd (let (a, b) = read_entry-forward archive pos e next small q in omega arith)
      ]
  scan-ends (suc fuel) archive pos count small enough few =
      elim (Option-cases (read_entry is_utf8 archive pos)) [
        | inl q ↦ ([], scan-end _ archive pos count q, omega arith)
        | inr ((e, next), q) ↦
            let (a, b) = read_entry-forward archive pos e next small q in
            elim (Bool-cases (ltb count max_files && not (same_bytes e.name dot))) [
              | inl kept ↦
                  let (es, r, l) =
                    scan-ends fuel archive next (count + 1) small (omega arith)
                      (room count _ kept) in
                  (e ∷ es, scan-keep (suc fuel) archive pos count e next es q kept r, omega arith)
              | inr left ↦
                  let (es, r, l) = scan-ends fuel archive next count small (omega arith) few in
                  (es, scan-drop (suc fuel) archive pos count e next es q left r, l)
            ]
      ]

  -- The walk over an archive ends, whatever its bytes are, and it finds at most 16 files: every round
  -- goes forward by more than a header of 110 bytes, however `align4` rounds. A byte slice is shorter
  -- than 2 ^ 63.
  pub load_archive-ends :
      (archive : List ℕ)
      → length archive < 2 ^ 63
      → (es : List Entry) × (load_archive is_utf8 archive ≡ some es) × (length es ≤ max_files)
  unfolding load_archive
  load_archive-ends archive small =
      let (es, q, l) = scan-ends (length archive) archive 0 0 small (omega arith) (omega arith) in
      (es, q, omega arith)
