-- ===== src/Fs/Server.antt =====
-- The requests of the file server, the main loop of user/programs/fs-server/src/main.rs. The test of
-- `core::str::from_utf8` and `str::encode_utf16` are parameters, and so is the fuel of the loops along
-- chains. A request that ends the answer to one client leaves the server ready for the next.
use nek_os.Base.{
  ℕ, ◌+◌, ◌-◌, ◌%◌, ◌^◌, min, Bool, Option, none, some, List, [], ◌∷◌, length, ltb, ◌==◌,
  if◌then◌else◌,
}
use nek_os.Base.Words.{usize_max}
use nek_os.Fs.{Disk, Fat32Fs, block_size, disk_read, alloc_cluster, open_fs}
use nek_os.Fs.Dir.{DirEntry, first_cluster, walk_dir, find_entry}
use nek_os.Fs.Path.{attr_directory, resolve_path}
use nek_os.Fs.File.{read_file, write_file}
use nek_os.Fs.ShortName.{split_last}
use nek_os.Fs.Create.{create_dir_entry, create_empty_dir}
use nek_os.Fs.Change.{update_dir_entry_size, free_chain, truncate_file}
use nek_os.Fs.Erase.{delete_dir_entry}
use nek_os.Fs.Format.{format_fat32}

abbrev pub ipc_buffer_size : ℕ
ipc_buffer_size = 4096

abbrev pub attr_archive : ℕ
attr_archive = 0x20

-- Four words and a buffer: a request, and a reply.
pub record Packet : Type 0 where
  pub w0 : ℕ
  pub w1 : ℕ
  pub w2 : ℕ
  pub w3 : ℕ
  pub buf : List ℕ

abbrev pub reply_words : ℕ → ℕ → ℕ → ℕ → Packet
reply_words a b c d = record { w0 = a; w1 = b; w2 = c; w3 = d; buf = [] }

abbrev pub fs_ok : ℕ
fs_ok = 0

abbrev pub fs_err : ℕ
fs_err = usize_max

abbrev pub refused : Packet
refused = reply_words fs_err 0 0 0

abbrev pub status : Bool → Packet
status ok = if ok then reply_words fs_ok 0 0 0 else refused

-- `trim_end_matches('\0')`
unfoldable pub trim_zeros : List ℕ → List ℕ
trim_zeros [] = []
trim_zeros (b ∷ bs) = elim (trim_zeros bs) [
  | [] ↦ if b == 0 then [] else b ∷ []
  | c ∷ cs ↦ b ∷ c ∷ cs
]

abbrev pub as_u32 : ℕ → ℕ
as_u32 word = word % 2 ^ 32

-- The directory part of a path, the root's for a path that has its only slash in front.
abbrev parent_path : List ℕ → List ℕ
parent_path [] = b'/' ∷ []
parent_path (b ∷ bs) = b ∷ bs

module _ (is_utf8 : List ℕ → Bool) (encode_utf16 : List ℕ → List ℕ) (fuel : ℕ) where
  unfoldable pub path_of : List ℕ → List ℕ
  unfolding trim_zeros
  path_of buf = trim_zeros (if is_utf8 buf then buf else [])

  -- The first cluster of the directory that a path names a file of, and the file's name.
  unfoldable pub parent_of : Fat32Fs → List ℕ → Disk → Option (ℕ × List ℕ)
  unfolding split_last resolve_path
  parent_of fs path d = elim (split_last b'/' path) [
    | none ↦ none
    | some (before, name) ↦ elim (resolve_path fuel fs (parent_path before) d) [
      | none ↦ none
      | some (e, found) ↦ some (first_cluster e, name)
    ]
  ]

  abbrev about : DirEntry → Packet
  about e = reply_words fs_ok (first_cluster e) e.file_size e.attr

  unfoldable pub on_open : Fat32Fs → List ℕ → Disk → Packet × Disk
  unfolding resolve_path
  on_open fs path d = elim (resolve_path fuel fs path d) [
    | none ↦ (refused, d)
    | some (e, name) ↦ (about e, d)
  ]

  unfoldable pub on_read : Fat32Fs → Packet → Disk → Packet × Disk
  unfolding read_file
  on_read fs p d =
      let found =
        read_file fuel fs (as_u32 p.w1) (as_u32 p.w2) (2 ^ 32 - 1)
          (min (as_u32 p.w3) ipc_buffer_size) d in
      (record { w0 = fs_ok; w1 = length found; w2 = 0; w3 = 0; buf = found }, d)

  -- The walk that counts the entries of a directory.
  unfoldable pub on_readdir : Fat32Fs → Packet → Disk → Packet × Disk
  unfolding walk_dir
  on_readdir fs p d =
      (reply_words fs_ok (walk_dir (λ n e name. n + 1) fuel fs (as_u32 p.w1) 0 d).1 0 0, d)

  unfoldable pub on_mkdir : Fat32Fs → List ℕ → Disk → Packet × Disk
  unfolding parent_of create_empty_dir create_dir_entry
  on_mkdir fs path d = elim (parent_of fs path d) [
    | none ↦ (refused, d)
    | some (parent, name) ↦
        let (o, e) = create_empty_dir fs parent d in
        elim o [
          | none ↦ (refused, e)
          | some cluster ↦ (
            reply_words fs_ok cluster 0 0,
            (create_dir_entry encode_utf16 fuel fs parent name attr_directory cluster 0 e).1,
          )
        ]
  ]

  abbrev write_from : Fat32Fs → ℕ → Packet → Disk → Packet × Disk
  write_from fs cluster p d =
      let ((count, last), e) = write_file fuel fs cluster (as_u32 p.w2) p.buf d in
      (reply_words fs_ok count last 0, e)

  -- A file without a cluster gets its first one.
  unfoldable pub on_write : Fat32Fs → Packet → Disk → Packet × Disk
  unfolding write_file alloc_cluster
  on_write fs p d =
      if ltb (as_u32 p.w1) 2
      then (let (o, e) = alloc_cluster fs d in
          elim o [ none ↦ (refused, e) | some c ↦ write_from fs c p e ])
      else write_from fs (as_u32 p.w1) p d

  unfoldable pub create_file : Fat32Fs → List ℕ → Disk → Packet × Disk
  unfolding parent_of create_dir_entry
  create_file fs path d = elim (parent_of fs path d) [
    | none ↦ (refused, d)
    | some (parent, name) ↦
        let (o, e) = create_dir_entry encode_utf16 fuel fs parent name attr_archive 0 0 d in
        elim o [ none ↦ (refused, e) | some at ↦ (reply_words fs_ok 0 0 attr_archive, e) ]
  ]

  unfoldable pub on_create_open : Fat32Fs → List ℕ → Disk → Packet × Disk
  unfolding resolve_path create_file
  on_create_open fs path d = elim (resolve_path fuel fs path d) [
    | some (e, name) ↦ (about e, d)
    | none ↦ create_file fs path d
  ]

  unfoldable pub on_update_size : Fat32Fs → List ℕ → Packet → Disk → Packet × Disk
  unfolding parent_of update_dir_entry_size
  on_update_size fs path p d = elim (parent_of fs path d) [
    | none ↦ (refused, d)
    | some (parent, name) ↦
        let (ok, e) = update_dir_entry_size fuel fs parent name (as_u32 p.w2) (as_u32 p.w3) d in
        (status ok, e)
  ]

  -- The directory of a file, its name and its first cluster.
  unfoldable pub file_of : Fat32Fs → List ℕ → Disk → Option (ℕ × List ℕ × ℕ)
  unfolding parent_of find_entry
  file_of fs path d = elim (parent_of fs path d) [
    | none ↦ none
    | some (parent, name) ↦ elim (find_entry fuel fs parent name d) [
      | none ↦ none
      | some (e, found) ↦ some (parent, name, first_cluster e)
    ]
  ]

  unfoldable pub on_delete : Fat32Fs → List ℕ → Disk → Packet × Disk
  unfolding file_of delete_dir_entry free_chain
  on_delete fs path d = elim (file_of fs path d) [
    | none ↦ (refused, d)
    | some (parent, name, cluster) ↦
        let (ok, e) = delete_dir_entry fuel fs parent name d in
        (
          status ok,
          if ok then (if ltb cluster 2 then e else (free_chain fuel fs cluster e).1) else e,
        )
  ]

  unfoldable pub on_truncate : Fat32Fs → List ℕ → Disk → Packet × Disk
  unfolding file_of truncate_file
  on_truncate fs path d = elim (file_of fs path d) [
    | none ↦ (refused, d)
    | some (parent, name, cluster) ↦
        if ltb cluster 2
        then (reply_words fs_ok 0 0 0, d)
        else (let (ok, e) = truncate_file fuel fs cluster parent name d in (status ok, e))
  ]

  -- One round of the loop: the reply to a request.
  unfoldable pub handle_request : Fat32Fs → Packet → Disk → Packet × Disk
  unfolding path_of on_open on_read on_readdir on_mkdir on_write on_create_open on_update_size
      on_delete on_truncate
  handle_request fs p d =
      if p.w0 == 1
      then on_open fs (path_of p.buf) d
      else if p.w0 == 2
      then (reply_words fs_ok 0 0 0, d)
      else if p.w0 == 3
      then on_read fs p d
      else if p.w0 == 4
      then on_write fs p d
      else if p.w0 == 6
      then on_mkdir fs (path_of p.buf) d
      else if p.w0 == 7
      then on_readdir fs p d
      else if p.w0 == 8
      then on_create_open fs (path_of p.buf) d
      else if p.w0 == 9
      then on_update_size fs (path_of p.buf) p d
      else if p.w0 == 10
      then on_delete fs (path_of p.buf) d
      else if p.w0 == 11
      then on_truncate fs (path_of p.buf) d
      else (refused, d)

  -- The requests of a run, in order.
  unfoldable pub serve : Fat32Fs → List Packet → Disk → List Packet × Disk
  unfolding handle_request
  serve fs [] d = ([], d)
  serve fs (p ∷ ps) d =
      let (r, e) = handle_request fs p d in let (rs, g) = serve fs ps e in (r ∷ rs, g)

-- The start of `main`: the volume, or `none` where the server exits.
unfoldable pub start : Disk → Option Fat32Fs × Disk
unfolding format_fat32 disk_read open_fs
start d =
    let (o, e) = format_fat32 d in
    elim o [
      | none ↦ (none, e)
      | some u ↦ (elim (disk_read 0 block_size e) [ none ↦ none | some buf ↦ open_fs buf ], e)
    ]
