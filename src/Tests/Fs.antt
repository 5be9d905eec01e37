-- ===== src/Tests/Fs.antt =====
-- Runs of the file server.
use nek_os.Base.{
  ℕ, ◌+◌, ◌*◌, ◌%◌, ◌^◌, ◌≤◌, ◌<◌, Bool, true, false, none, some, List, [], ◌∷◌, ◌++◌, replicate,
  ◌≡◌, refl, ◌≢◌, ◌⊎◌, arith,
}
use nek_os.Fs.{
  Disk, block_size, ramdisk_size, disk_read, disk_write, fat_next, fat_set, fat32_eoc, bytes_at,
  cluster_to_sector,
}
use nek_os.Fs.Dir.{
  DirEntry, walk_dir, find_entry, read_dir_entry, entry_bytes, first_cluster, no_lfn,
}
use nek_os.Fs.File.{write_file, read_file}
use nek_os.Fs.Create.{put_short_entry, create_dir_entry}
use nek_os.Fs.CreateFind.{find_entry-create_dir_entry}
use nek_os.Fs.ShortName.{all_plain}
use nek_os.Fs.Change.{free_chain, update_dir_entry_size}
use nek_os.Fs.Erase.{delete_dir_entry}
use nek_os.Fs.Server.{Packet, reply_words, refused, start, serve}
use nek_os.Fs.Sectors.{disk_read-disk_write}
use nek_os.Fs.Fat.{HasEntry, fat_next-fat_set}
use nek_os.Fs.Volume.{IsVolume, IsCluster, data_address}
use nek_os.Fs.Chain.{Chain, last, step, has, free_chain_lem}
use nek_os.Fs.Ends.{free_chain-ends}
use nek_os.Fs.Entries.{collect}
use nek_os.Fs.Records.{records_of}
use nek_os.Fs.Listing.{Searched, listing, find_entry-listing}
use nek_os.Fs.Start.{volume, volume-IsVolume, start_lem}
use nek_os.Fs.Mark.{update_dir_entry_size-stop}
use nek_os.Fs.Delete.{Marks, delete_dir_entry_lem}
use nek_os.Fs.RoundTrip.{write_file-read_file}
use nek_os.Fs.Short.{read_dir_entry-put_short_entry}

abbrev blank : Disk
blank a = 0

abbrev any_text : List ℕ → Bool
any_text bytes = true

abbrev ascii : List ℕ → List ℕ
ascii bytes = bytes

abbrev request : ℕ → ℕ → ℕ → ℕ → List ℕ → Packet
request op a b c buf = record { w0 = op; w1 = a; w2 = b; w3 = c; buf = buf }

-- The disk behind the requests of a run, and the replies.
unfoldable run : List Packet → List Packet × Disk
unfolding start serve
run ps = serve any_text ascii 20 volume ps (start blank).1

abbrev name : List ℕ
name = b'A' ∷ []

abbrev path : List ℕ
path = b'/' ∷ name

-- A file is created, written and read. The new size and cluster are reported as stored, but the file is
-- still empty when it is opened again.
file_lost :
    (run (
      request 8 0 0 0 path
      ∷ request 4 0 0 0 (7 ∷ 8 ∷ [])
      ∷ request 3 3 0 2 []
      ∷ request 9 0 2 3 path
      ∷ request 1 0 0 0 path
      ∷ [])).0
    ≡ reply_words 0 0 0 0x20
      ∷ reply_words 0 2 3 0
      ∷ record { w0 = 0; w1 = 2; w2 = 0; w3 = 0; buf = 7 ∷ 8 ∷ [] }
      ∷ reply_words 0 0 0 0
      ∷ reply_words 0 0 0 0x20
      ∷ []
unfolding run
file_lost = refl

-- In the directory `AB` the file `A`, whose name is a part of the path before it, cannot be opened.
part_of_path :
    (run (
      request 6 0 0 0 (b'/' ∷ b'A' ∷ b'B' ∷ [])
      ∷ request 8 0 0 0 (b'/' ∷ b'A' ∷ b'B' ∷ b'/' ∷ b'A' ∷ [])
      ∷ request 1 0 0 0 (b'/' ∷ b'A' ∷ b'B' ∷ b'/' ∷ b'A' ∷ [])
      ∷ [])).0
    ≡ reply_words 0 3 0 0 ∷ reply_words 0 0 0 0x20 ∷ refused ∷ []
unfolding run
part_of_path = refl

-- A write at the front of a sector clears the bytes of the sector behind it.
rest_cleared :
    (run (request 4 0 0 0 (1 ∷ 2 ∷ 3 ∷ []) ∷ request 4 3 0 0 (9 ∷ []) ∷ request 3 3 0 3 [] ∷ [])).0
    ≡ reply_words 0 3 3 0
      ∷ reply_words 0 1 3 0
      ∷ record { w0 = 0; w1 = 3; w2 = 0; w3 = 0; buf = 9 ∷ 0 ∷ 0 ∷ [] }
      ∷ []
unfolding run
rest_cleared = refl

-- The file `A-B` is stored under the short name `AB` and not found again.
renamed :
    (run (
      request 8 0 0 0 (b'/' ∷ b'A' ∷ b'-' ∷ b'B' ∷ [])
      ∷ request 1 0 0 0 (b'/' ∷ b'A' ∷ b'-' ∷ b'B' ∷ [])
      ∷ request 1 0 0 0 (b'/' ∷ b'A' ∷ b'B' ∷ [])
      ∷ [])).0
    ≡ reply_words 0 0 0 0x20 ∷ refused ∷ reply_words 0 0 0 0x20 ∷ []
unfolding run
renamed = refl

-- A name of fourteen letters is stored as a long name, found, and not found after its deletion.
abbrev long_path : List ℕ
long_path = b'/' ∷ replicate 14 b'x'

long_name_found :
    (run (
      request 8 0 0 0 long_path
      ∷ request 1 0 0 0 long_path
      ∷ request 10 0 0 0 long_path
      ∷ request 1 0 0 0 long_path
      ∷ [])).0
    ≡ reply_words 0 0 0 0x20 ∷ reply_words 0 0 0 0x20 ∷ reply_words 0 0 0 0 ∷ refused ∷ []
unfolding run
long_name_found = refl

-- The number 2 ^ 55 + 3 stands for the sector 3.
abbrev far : ℕ
far = 2 ^ 55 + 3

disk_read-disk_write_example :
    let (o, e) = disk_write far (7 ∷ 8 ∷ []) blank in
    ((far * block_size % 2 ^ 64 + 2 ≤ ramdisk_size)
      × (o ≡ some tt)
      × (disk_read far 2 e ≡ some (7 ∷ 8 ∷ []))
      × ((other n : ℕ)
          → (other * block_size % 2 ^ 64 + n ≤ far * block_size % 2 ^ 64)
            ⊎ (far * block_size % 2 ^ 64 + 2 ≤ other * block_size % 2 ^ 64)
          → disk_read other n e ≡ disk_read other n blank))
    ⊎ ((ramdisk_size < far * block_size % 2 ^ 64 + 2) × (o ≡ none) × (e ≡ blank))
disk_read-disk_write_example = disk_read-disk_write far (7 ∷ 8 ∷ []) blank

fat_next-fat_set_example :
    let (o, e) = fat_set volume 5 9 blank in
    (o ≡ some tt)
    × (fat_next volume 5 e ≡ some 9)
    × ((other : ℕ)
        → HasEntry volume other
        → other ≢ 5
        → fat_next volume other e ≡ fat_next volume other blank)
fat_next-fat_set_example = fat_next-fat_set volume 5 9 blank (omega arith) (omega arith)

abbrev formatted : Disk
unfolding start
formatted = (start blank).1

-- A chain of the clusters 2 and 3.
abbrev chained : Disk
unfolding fat_set
chained = (fat_set volume 3 fat32_eoc (fat_set volume 2 3 blank).1).1

two_and_three : Chain volume chained 2 (2 ∷ 3 ∷ [])
unfolding fat_next chained
two_and_three = step (omega arith) refl refl refl (last (omega arith) refl refl)

free_chain_lem_example :
    let (count, e) = free_chain 2 volume 2 chained in
    (count ≡ 2)
    × ((i : ℕ) → HasEntry volume i → has i (2 ∷ 3 ∷ []) ≡ true → fat_next volume i e ≡ some 0)
    × ((i : ℕ)
        → HasEntry volume i
        → has i (2 ∷ 3 ∷ []) ≡ false
        → fat_next volume i e ≡ fat_next volume i chained)
free_chain_lem_example = free_chain_lem 2 two_and_three (omega arith) (omega arith)

-- A chain that leads from the cluster 2 to itself.
abbrev circle : Disk
unfolding fat_set
circle = (fat_set volume 2 2 blank).1

free_chain-ends_example :
    free_chain 2000000 volume 2 circle ≡ free_chain (1048576 + 1) volume 2 circle
free_chain-ends_example =
    free_chain-ends 2000000 volume 2 circle (omega arith) (omega arith) (omega arith)

start_lem_example :
    let (o, e) = start (λ a. 0xE5) in
    (o ≡ some volume)
    × IsVolume volume
    × (fat_next volume 2 e ≡ some fat32_eoc)
    × (walk_dir collect 1 volume 2 [] e ≡ (true, []))
start_lem_example = start_lem 0 λ a. 0xE5

-- The disk with the file `A`.
abbrev with_file : Disk
unfolding run
with_file = (run (request 8 0 0 0 path ∷ [])).1

-- The name of the file with a small letter.
abbrev small_name : List ℕ
small_name = b'a' ∷ []

only_root : Chain volume with_file 2 (2 ∷ [])
unfolding fat_next with_file
only_root = last (omega arith) refl refl

root_cluster : (i : ℕ) → has i (2 ∷ []) ≡ true → IsCluster volume i
root_cluster i h = let e : i ≡ 2 = ground arith in rw e (omega arith, omega arith)

find_entry-listing_example :
    Searched small_name
      (listing (records_of volume (2 ∷ []) with_file) no_lfn)
      (find_entry 5 volume 2 small_name with_file)
find_entry-listing_example =
    find_entry-listing 5 volume 2 (2 ∷ []) small_name with_file volume-IsVolume only_root
      root_cluster (omega arith)

abbrev root_block : List ℕ
unfolding bytes_at
root_block = bytes_at 512 (96 * 512) with_file

update_dir_entry_size-stop_example :
    (update_dir_entry_size 5 volume 2 name 2 3 with_file).1 ≡ with_file
unfolding disk_read cluster_to_sector with_file
update_dir_entry_size-stop_example =
    update_dir_entry_size-stop 5 volume 2 1 name 2 3 with_file root_block (omega arith) refl
      (omega arith) refl

delete_dir_entry_lem_example :
    let (ok, e) = delete_dir_entry 5 volume 2 name with_file in Marks with_file ok e
delete_dir_entry_lem_example = delete_dir_entry_lem 5 volume 2 name with_file

write_file-read_file_example :
    let (r, e) = write_file 1 volume 3 100 (7 ∷ 8 ∷ []) formatted in
    (r ≡ (2, 3))
    × (read_file 1 volume 3 100 1000 2 e ≡ 7 ∷ 8 ∷ [])
    × ((a : ℕ)
        → (a < data_address volume 3) ⊎ (data_address volume 3 + block_size ≤ a)
        → e a ≡ formatted a)
write_file-read_file_example =
    write_file-read_file 0 volume 3 100 1000 (7 ∷ 8 ∷ []) formatted volume-IsVolume refl
      (omega arith, omega arith) (omega arith) (omega arith) (omega arith)

read_dir_entry-put_short_entry_example :
    let e = read_dir_entry (
      entry_bytes
        (put_short_entry (replicate 11 b'A') 0x20 70000 5 (3 * 32) (replicate 512 0))
        3) in
    (e.name ++ e.ext ≡ replicate 11 b'A')
    × (e.attr ≡ 0x20)
    × (first_cluster e ≡ 70000)
    × (e.file_size ≡ 5)
read_dir_entry-put_short_entry_example =
    read_dir_entry-put_short_entry (replicate 11 b'A') 0x20 70000 5 3 (replicate 512 0) refl
      (omega arith) refl (omega arith) (omega arith)

find_entry-create_dir_entry_example :
    let (o, e) = create_dir_entry ascii 5 volume 2 name 0x20 7 100 formatted in
    (o ≡ some (96, 0))
    × ((x : DirEntry) × (find_entry 5 volume 2 name e ≡ some (x, name))
        × (x.attr ≡ 0x20)
        × (first_cluster x ≡ 7)
        × (x.file_size ≡ 100))
unfolding cluster_to_sector disk_read formatted all_plain
find_entry-create_dir_entry_example =
    find_entry-create_dir_entry ascii 4 volume 2 name 0x20 7 100 formatted (replicate 512 0)
      (omega arith) refl refl refl (omega arith) (omega arith) refl (omega arith) (omega arith) refl
