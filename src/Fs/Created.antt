-- ===== src/Fs/Created.antt =====
-- The first entry of a sector that the file server, user/programs/fs-server/src/main.rs, has created.
use nek_os.Base.{
  ℕ, suc, ◌+◌, ◌*◌, ◌≤◌, ◌<◌, true, false, none, some, List, [], ◌∷◌, ◌++◌, length, get_or, take,
  ◌==◌, ◌≡◌, refl, sym, ap, arith, ◌∙◌, subst, length-append,
}
use nek_os.Fs.{Disk, block_size, offset_of, disk_read, disk_write, put_bytes}
use nek_os.Fs.Dir.{
  no_lfn, more, read_dir_entry, entry_bytes, entry_size, entries_per_sector, short_name, entry_name,
  keep_first, walk_entry,
}
use nek_os.Fs.ShortName.{all_plain, field}
use nek_os.Fs.Create.{
  NewEntry, put_short_entry, put_entries, put_lfn_entries, lfn_count, is_unused, find_run,
  place_in_sectors, answer,
}
use nek_os.Fs.Names.{upper, length-field, until_space-field, same_name-upper, in_use}
use nek_os.Fs.Short
use nek_os.Fs.Partial

append_nil : (xs : List ℕ) → xs ++ [] ≡ xs
append_nil [] = refl
append_nil (x ∷ xs) = ap (◌∷◌ x) (append_nil xs)

find_run-here :
    (n : ℕ) (buf : List ℕ)
    → is_unused (get_or buf 0 0) ≡ true
    → find_run (suc n) 0 0 0 (0 + 1) buf ≡ some 0
unfolding find_run
find_run-here n buf u = rw (u, find_run) refl

place_in_sectors-at :
    (n sector : ℕ) (d : Disk) (e : NewEntry) (buf : List ℕ) (g : Disk)
    → disk_read sector block_size d ≡ some buf
    → find_run entries_per_sector 0 0 0 (lfn_count e + 1) buf ≡ some 0
    → disk_write sector (put_entries e 0 buf) d ≡ (some tt, g)
    → place_in_sectors (suc n) sector e d ≡ answer (some (sector, (0 + lfn_count e) * entry_size)) g
unfolding place_in_sectors
place_in_sectors-at n sector d e buf g r run put = rw (r, place_in_sectors, run, put) refl

-- The first entry of a sector that holds a new short entry.
module _ (name : List ℕ) (attr c size : ℕ) (buf : List ℕ) where
  unfoldable pub short : List ℕ
  short = field 8 name ++ field 3 []

  unfoldable pub block : List ℕ
  unfolding short
  block = put_short_entry short attr c size (0 * entry_size) buf

  unfoldable pub first_entry : List ℕ
  unfolding block
  first_entry = entry_bytes block 0

  pub eleven : length short ≡ 11
  unfolding short
  eleven =
      omega
        (arith, length-append (field 8 name) (field 3 []), length-field 8 name, length-field 3 [])

  module _ (full : length buf ≡ block_size) where
    byte : (k : ℕ) → k < 11 → get_or first_entry k 0 ≡ get_or short k 0
    unfolding first_entry block Short.put
    byte k h =
        Short.low short attr c size 0 buf eleven (omega arith) full k (omega (arith, h))
        ∙ Short.get_or-append_left short (attr ∷ []) k (omega (arith, eleven, h))

    byte_of_name : (k : ℕ) → k < 8 → get_or first_entry k 0 ≡ get_or (field 8 name) k 0
    unfolding short
    byte_of_name k h =
        byte k (omega (arith, h))
        ∙ Short.get_or-append_left (field 8 name) (field 3 []) k
            (omega (arith, length-field 8 name, h))

    take_name : take 8 first_entry ≡ field 8 name
    unfolding first_entry block Short.put
    take_name =
        subst (λ (n : ℕ). take n first_entry ≡ field 8 name) (length-field 8 name)
          (Short.take_of_get_or first_entry (field 8 name)
            (omega (
              arith,
              length-field 8 name,
              Short.long short attr c size 0 buf eleven (omega arith) full,
            ))
            λ k h. byte_of_name k (omega (arith, h, length-field 8 name)))

    at_eight : get_or first_entry 8 0 ≡ b' '
    unfolding short field
    at_eight =
        byte 8 (omega arith)
        ∙ ap (λ (k : ℕ). get_or (field 8 name ++ field 3 []) k 0)
            (omega (arith, length-field 8 name))
        ∙ Short.get_or-append_right (field 8 name) (field 3 []) 0

    short_name-first_entry :
        all_plain name ≡ true → length name ≤ 8 → short_name first_entry ≡ upper name
    unfolding short_name
    short_name-first_entry h q =
        let space : (get_or first_entry 8 0 == b' ') ≡ true = ap (λ (b : ℕ). b == b' ') at_eight in
        rw (space, take_name, until_space-field 8 name h q) (append_nil (upper name))

    pub at_attr : get_or first_entry 11 0 ≡ attr
    unfolding first_entry block Short.put
    at_attr =
        Short.low short attr c size 0 buf eleven (omega arith) full 11 (omega arith)
        ∙ ap (λ (k : ℕ). get_or (short ++ attr ∷ []) k 0) (omega (arith, eleven))
        ∙ Short.get_or-append_right short (attr ∷ []) 0

    called :
        all_plain name ≡ true
        → length name ≤ 8
        → keep_first name none (read_dir_entry first_entry) (entry_name first_entry no_lfn)
          ≡ some (read_dir_entry first_entry, upper name)
    unfolding keep_first entry_name
    called h q = rw (short_name-first_entry h q, same_name-upper name) refl

    pub walk_entry-new :
        all_plain name ≡ true
        → 0 < length name
        → length name ≤ 8
        → (attr == 0x0F) ≡ false
        → walk_entry (keep_first name) first_entry no_lfn none
          ≡ more no_lfn (some (read_dir_entry first_entry, upper name))
    unfolding walk_entry
    walk_entry-new h p q a =
        let (nonzero, kept) = in_use name h p in
        let first = byte_of_name 0 (omega arith) in
        let z : (get_or first_entry 0 0 == 0) ≡ false = ap (λ (b : ℕ). b == 0) first ∙ nonzero in
        let k : (get_or first_entry 0 0 == 0xE5) ≡ false = ap (λ (b : ℕ). b == 0xE5) first ∙ kept in
        let f : (get_or first_entry 11 0 == 0x0F) ≡ false = ap (λ (b : ℕ). b == 0x0F) at_attr ∙ a in
        rw (z, walk_entry, k, f) (ap (more no_lfn) (called h q))

    unfoldable pub new_entry : List ℕ → NewEntry
    unfolding short
    new_entry chars = record {
      short = short;
      chars = chars;
      attr = attr;
      first_cluster = c;
      file_size = size;
    }

    pub length-block : length block ≡ block_size
    unfolding block Short.put
    length-block = Short.length_middle short attr c size 0 buf eleven (omega arith) full

    entries :
        (chars : List ℕ)
        → lfn_count (new_entry chars) ≡ 0
        → put_entries (new_entry chars) 0 buf ≡ block
    unfolding put_entries put_lfn_entries new_entry block
    entries chars none_long = rw none_long refl

    -- The place that a search finds for it.
    pub place_in_sectors-new :
        (n sector : ℕ) (d : Disk) (chars : List ℕ)
        → disk_read sector block_size d ≡ some buf
        → is_unused (get_or buf 0 0) ≡ true
        → lfn_count (new_entry chars) ≡ 0
        → place_in_sectors (suc n) sector (new_entry chars) d
          ≡ answer (some (sector, 0)) (put_bytes (offset_of sector) block d)
    place_in_sectors-new n sector d chars r u none_long =
        let run : find_run entries_per_sector 0 0 0 (lfn_count (new_entry chars) + 1) buf ≡ some 0 =
          subst (λ (k : ℕ). find_run entries_per_sector 0 0 0 (k + 1) buf ≡ some 0) (sym none_long)
            (find_run-here 15 buf u) in
        let (wrote, again) = Partial.disk_read-replaced sector d buf block r length-block in
        let put : disk_write sector (put_entries (new_entry chars) 0 buf) d
            ≡ (some tt, put_bytes (offset_of sector) block d) =
          subst
            (λ (b : List ℕ).
              disk_write sector b d ≡ (some tt, put_bytes (offset_of sector) block d))
            (sym (entries chars none_long)) wrote in
        place_in_sectors-at n sector d (new_entry chars) buf (put_bytes (offset_of sector) block d)
          r run put
        ∙ ap
            (λ (k : ℕ).
              answer (some (sector, (0 + k) * entry_size)) (put_bytes (offset_of sector) block d))
            none_long
