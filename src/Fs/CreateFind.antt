-- ===== src/Fs/CreateFind.antt =====
-- `create_dir_entry` and then `find_entry` of the file server, user/programs/fs-server/src/main.rs.
use nek_os.Base.{
  ℕ, suc, ◌-◌, ◌^◌, ◌≤◌, ◌<◌, true, false, Option, none, some, List, length, length-take, get_or,
  take, ◌==◌, ◌≡◌, refl, sym, arith, ◌∙◌, subst,
}
use nek_os.Fs.{Disk, Fat32Fs, block_size, offset_of, disk_read, put_bytes, cluster_to_sector, spc}
use nek_os.Fs.Dir.{
  DirEntry, read_dir_entry, find_entry, first_cluster, entry_bytes, walk_entry, keep_first, no_lfn,
  more,
}
use nek_os.Fs.ShortName.{all_plain}
use nek_os.Fs.Create.{
  NewEntry, lfn_count, is_unused, place, place_in_sectors, answer, create_dir_entry,
}
use nek_os.Fs.Created
use nek_os.Fs.Kept
use nek_os.Fs.Names.{upper, make_short_name-plain}
use nek_os.Fs.Short
use nek_os.Fs.Partial
use nek_os.Fs.Sectors

place-answer :
    (fuel n : ℕ) (fs : Fat32Fs) (cluster : ℕ) (e : NewEntry) (d : Disk) (o : Option (ℕ × ℕ))
    (g : Disk)
    → spc fs ≡ suc n
    → place_in_sectors (suc n) (cluster_to_sector fs cluster) e d ≡ answer o g
    → place (suc fuel) fs cluster e d ≡ (o, g)
unfolding place
place-answer fuel n fs cluster e d o g one here =
    let run : place_in_sectors (spc fs) (cluster_to_sector fs cluster) e d ≡ answer o g =
      subst (λ (k : ℕ). place_in_sectors k (cluster_to_sector fs cluster) e d ≡ answer o g)
        (sym one) here in
    rw (run, place) refl

no_lfn_entries : (e : NewEntry) → length e.chars ≤ 13 → lfn_count e ≡ 0
no_lfn_entries e h = ground arith

length_of_read :
    (sector : ℕ) (d : Disk) (buf : List ℕ)
    → disk_read sector block_size d ≡ some buf
    → length buf ≡ block_size
length_of_read sector d buf r =
    let (inside, same) = Partial.read_in sector d buf r in
    rw same (Sectors.length-bytes_at block_size (offset_of sector) d)

short_chars :
    (encode_utf16 : List ℕ → List ℕ) (name : List ℕ)
    → encode_utf16 name ≡ name
    → length name ≤ 8
    → length (take 256 (encode_utf16 name)) ≤ 13
short_chars encode_utf16 name enc q = rw enc (omega (arith, length-take 256 name, q))

module _ (name : List ℕ) (attr c size : ℕ) (buf : List ℕ) (full : length buf ≡ block_size) where
  one_place :
      (chars : List ℕ)
      → length chars ≤ 13
      → lfn_count (Created.new_entry name attr c size buf full chars) ≡ 0
  unfolding Created.new_entry
  one_place chars h = no_lfn_entries (Created.new_entry name attr c size buf full chars) h

  walk_entry-block :
      all_plain name ≡ true
      → 0 < length name
      → length name ≤ 8
      → (attr == 0x0F) ≡ false
      → walk_entry
          (keep_first name)
          (entry_bytes (Created.block name attr c size buf) 0)
          no_lfn
          none
        ≡ more no_lfn (some (read_dir_entry (Created.first_entry name attr c size buf), upper name))
  unfolding Created.first_entry
  walk_entry-block h p q a = Created.walk_entry-new name attr c size buf full h p q a

  fields :
      c < 2 ^ 32
      → size < 2 ^ 32
      → let x = read_dir_entry (Created.first_entry name attr c size buf) in
        (x.attr ≡ attr) × (first_cluster x ≡ c) × (x.file_size ≡ size)
  unfolding Created.first_entry Created.block
  fields cl sz =
      let (name_is, attr_is, cluster_is, size_is) =
        Short.read_dir_entry-put_short_entry (Created.short name attr c size buf) attr c size 0 buf
          (Created.eleven name attr c size buf) (omega arith) full cl sz in
      (attr_is, cluster_is, size_is)

create_dir_entry-plain :
    (encode_utf16 : List ℕ → List ℕ) (fuel : ℕ) (fs : Fat32Fs) (dir : ℕ) (name : List ℕ)
    (attr c size : ℕ) (d : Disk) (buf : List ℕ) (full : length buf ≡ block_size)
    → all_plain name ≡ true
    → 0 < length name
    → length name ≤ 8
    → create_dir_entry encode_utf16 fuel fs dir name attr c size d
      ≡ place fuel fs dir
          (Created.new_entry name attr c size buf full (take 256 (encode_utf16 name)))
          d
unfolding create_dir_entry Created.new_entry Created.short
create_dir_entry-plain encode_utf16 fuel fs dir name attr c size d buf full h p q =
    rw (make_short_name-plain fuel fs name dir d h p q) refl

module _ (encode_utf16 : List ℕ → List ℕ) where
  -- A name of one to eight letters, digits and underscores, which UTF-16 encodes by one unit for each, is
  -- put in the first place of a directory where that is unused and its sector can be read. A search for
  -- the name then finds an entry with the attributes, the first cluster and the size that were given,
  -- where the attributes are not those of a long name.
  pub find_entry-create_dir_entry :
      (fuel : ℕ) (fs : Fat32Fs) (dir_cluster : ℕ) (name : List ℕ) (attr c size : ℕ) (d : Disk)
      (buf : List ℕ)
      → 0 < spc fs
      → disk_read (cluster_to_sector fs dir_cluster) block_size d ≡ some buf
      → is_unused (get_or buf 0 0) ≡ true
      → all_plain name ≡ true
      → 0 < length name
      → length name ≤ 8
      → encode_utf16 name ≡ name
      → c < 2 ^ 32
      → size < 2 ^ 32
      → (attr == 0x0F) ≡ false
      → let (o, e) = create_dir_entry encode_utf16 (suc fuel) fs dir_cluster name attr c size d in
        (o ≡ some (cluster_to_sector fs dir_cluster, 0))
        × ((x : DirEntry) × (find_entry (suc fuel) fs dir_cluster name e ≡ some (x, upper name))
            × (x.attr ≡ attr)
            × (first_cluster x ≡ c)
            × (x.file_size ≡ size))
  find_entry-create_dir_entry fuel fs dir_cluster name attr c size d buf k r u h p q enc cl sz a =
      let one : spc fs ≡ suc (spc fs - 1) = omega arith in
      let sector = cluster_to_sector fs dir_cluster in
      let full = length_of_read sector d buf r in
      let block = Created.block name attr c size buf in
      let e = put_bytes (offset_of sector) block d in
      let chars = take 256 (encode_utf16 name) in
      let few = one_place name attr c size buf full chars (short_chars encode_utf16 name enc q) in
      let made : create_dir_entry encode_utf16 (suc fuel) fs dir_cluster name attr c size d
          ≡ (some (sector, 0), e) =
        create_dir_entry-plain encode_utf16 (suc fuel) fs dir_cluster name attr c size d buf full h
          p q
        ∙ place-answer fuel (spc fs - 1) fs dir_cluster
            (Created.new_entry name attr c size buf full chars) d (some (sector, 0)) e one
            (Created.place_in_sectors-new name attr c size buf full (spc fs - 1) sector d chars r u
              few) in
      let (wrote, again) =
        Partial.disk_read-replaced sector d buf block r
          (Created.length-block name attr c size buf full) in
      let x = read_dir_entry (Created.first_entry name attr c size buf) in
      let found : find_entry (suc fuel) fs dir_cluster name e ≡ some (x, upper name) =
        Kept.find_entry-first name (x, upper name) block
          (walk_entry-block name attr c size buf full h p q a) fuel (spc fs - 1) fs dir_cluster e
          one again in
      let (attr_is, cluster_is, size_is) = fields name attr c size buf full cl sz in
      rw made (refl, (x, found, attr_is, cluster_is, size_is))
