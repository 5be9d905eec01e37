-- ===== src/Fs/File.antt =====
-- Contents of files of the file server, user/programs/fs-server/src/main.rs: reading and writing
-- along a chain of clusters.
use nek_os.Base.{
  ℕ, zero, suc, ◌+◌, ◌-◌, ◌*◌, ◌%◌, ◌^◌, min, true, false, ◌&&◌, ◌||◌, Option, none, some, List, [],
  ◌++◌, length, take, drop, ltb, leb, ◌==◌, if◌then◌else◌,
}
use nek_os.Base.Bytes.{splice}
use nek_os.Fs.{
  Disk, Fat32Fs, block_size, disk_read, disk_write, cluster_to_sector, fat_next, fat_set, link, spc,
  alloc_cluster, zero_block,
}

abbrev pub cluster_size : Fat32Fs → ℕ
cluster_size fs = spc fs * block_size

-- `cur_offset + cluster_size`
abbrev pub next_offset : Fat32Fs → ℕ → ℕ
next_offset fs cur_offset = (cur_offset + cluster_size fs) % 2 ^ 32

-- The cluster that holds `offset` and the offset of its start.
unfoldable pub seek : ℕ → Fat32Fs → ℕ → ℕ → ℕ → Disk → Option (ℕ × ℕ)
unfolding fat_next
seek zero fs offset cluster cur_offset d = none
seek (suc fuel) fs offset cluster cur_offset d = elim (leb (next_offset fs cur_offset) offset) [
  | false ↦ some (cluster, cur_offset)
  | true ↦ elim (link (fat_next fs cluster d)) [
    | none ↦ none
    | some next ↦ seek fuel fs offset next (next_offset fs cur_offset) d
  ]
]

-- Where the transfer starts in sector `s` of a cluster when `count` bytes are done; `skip` is
-- `skip_in_cluster`.
abbrev pub start_in : ℕ → ℕ → ℕ → ℕ → ℕ → ℕ
start_in skip offset cur_offset s count =
    if leb ((cur_offset + s * block_size) % 2 ^ 32) offset && count == 0
    then min skip block_size
    else 0

-- A transfer so far: to go on with, or at its end.
pub data Transfer (A : Type 0) : Type 0 where
  going : A → Transfer A
  over : A → Transfer A

abbrev pub outcome : {A : Type 0} → Transfer A → A
outcome (going a) = a
outcome (over a) = a

-- The `n` sectors of a cluster from the `s`-th on; `out` is what has been read.
unfoldable pub read_sectors : ℕ → ℕ → ℕ → ℕ → ℕ → ℕ → ℕ → List ℕ → Disk → Transfer (List ℕ)
unfolding disk_read
read_sectors zero s sector skip offset cur_offset to_read out d = going out
read_sectors (suc n) s sector skip offset cur_offset to_read out d =
    let start = start_in skip offset cur_offset s (length out) in
    let count = min (block_size - start) (to_read - length out) in
    elim (disk_read (sector + s) block_size d) [
      | none ↦ over out
      | some buf ↦ elim (count == 0) [
        | true ↦ read_sectors n (s + 1) sector skip offset cur_offset to_read out d
        | false ↦ elim (leb to_read (length out + count)) [
          | true ↦ over (out ++ take count (drop start buf))
          | false ↦
              read_sectors n (s + 1) sector skip offset cur_offset to_read
                (out ++ take count (drop start buf)) d
        ]
      ]
    ]

unfoldable pub read_clusters : ℕ → Fat32Fs → ℕ → ℕ → ℕ → ℕ → ℕ → List ℕ → Disk → List ℕ
unfolding read_sectors fat_next cluster_to_sector
read_clusters zero fs skip offset cluster cur_offset to_read out d = out
read_clusters (suc fuel) fs skip offset cluster cur_offset to_read out d =
    elim (ltb (length out) to_read) [
      | false ↦ out
      | true ↦
          elim (read_sectors (spc fs) 0 (cluster_to_sector fs cluster) skip offset cur_offset
            to_read out d) [
              | over out2 ↦ out2
              | going out2 ↦ elim (link (fat_next fs cluster d)) [
                | none ↦ out2
                | some next ↦
                    read_clusters fuel fs skip offset next (next_offset fs cur_offset) to_read out2
                      d
              ]
            ]
    ]

-- `read_file` into a buffer of `n` bytes: the bytes read.
unfoldable pub read_file : ℕ → Fat32Fs → ℕ → ℕ → ℕ → ℕ → Disk → List ℕ
unfolding seek read_clusters
read_file fuel fs cluster offset file_size n d =
    if leb file_size offset || ltb cluster 2 then [] else (elim (seek fuel fs offset cluster 0 d) [
      | none ↦ []
      | some (cur_cluster, cur_offset) ↦
          read_clusters fuel fs (offset - cur_offset) offset cur_cluster cur_offset
            (min n (file_size - offset)) [] d
    ])

-- The cluster behind `cluster`, a new one where the chain ends.
unfoldable pub extend : Fat32Fs → ℕ → Disk → Option ℕ × Disk
unfolding fat_next alloc_cluster fat_set
extend fs cluster d = elim (link (fat_next fs cluster d)) [
  | some next ↦ (some next, d)
  | none ↦
      let (o, e) = alloc_cluster fs d in
      elim o [ none ↦ (none, e) | some new ↦ (some new, (fat_set fs cluster new e).1) ]
]

unfoldable pub seek_extend : ℕ → Fat32Fs → ℕ → ℕ → ℕ → Disk → Option (ℕ × ℕ) × Disk
unfolding extend
seek_extend zero fs offset cluster cur_offset d = (none, d)
seek_extend (suc fuel) fs offset cluster cur_offset d =
    elim (leb (next_offset fs cur_offset) offset) [
      | false ↦ (some (cluster, cur_offset), d)
      | true ↦
          let (o, e) = extend fs cluster d in
          elim o [
            | none ↦ (none, e)
            | some next ↦ seek_extend fuel fs offset next (next_offset fs cur_offset) e
          ]
    ]

-- The sector before the bytes are put in: read where its first part stays.
abbrev pub old_block : ℕ → ℕ → Disk → List ℕ
old_block start sector d =
    if ltb 0 start
    then (elim (disk_read sector block_size d) [ none ↦ zero_block | some buf ↦ buf ])
    else zero_block

-- The `n` sectors of a cluster from the `s`-th on, when `done` bytes of `buf` are written.
unfoldable pub write_sectors : ℕ → ℕ → ℕ → ℕ → ℕ → ℕ → List ℕ → ℕ → Disk → Transfer (ℕ × Disk)
unfolding disk_write disk_read splice zero_block
write_sectors zero s sector skip offset cur_offset buf done d = going (done, d)
write_sectors (suc n) s sector skip offset cur_offset buf done d =
    let start = start_in skip offset cur_offset s done in
    let count = min (block_size - start) (length buf - done) in
    elim (count == 0) [
      | true ↦ write_sectors n (s + 1) sector skip offset cur_offset buf done d
      | false ↦
          let block = splice (old_block start (sector + s) d) start (take count (drop done buf)) in
          let (o, e) = disk_write (sector + s) block d in
          elim o [
            | none ↦ over (done, e)
            | some u ↦ elim (leb (length buf) (done + count)) [
              | true ↦ over (done + count, e)
              | false ↦ write_sectors n (s + 1) sector skip offset cur_offset buf (done + count) e
            ]
          ]
    ]

-- The number of bytes written, and the last cluster.
unfoldable pub write_clusters : ℕ → Fat32Fs → ℕ → ℕ → ℕ → ℕ → List ℕ → ℕ → Disk → (ℕ × ℕ) × Disk
unfolding write_sectors extend cluster_to_sector
write_clusters zero fs skip offset cluster cur_offset buf done d = ((done, cluster), d)
write_clusters (suc fuel) fs skip offset cluster cur_offset buf done d =
    elim (ltb done (length buf)) [
      | false ↦ ((done, cluster), d)
      | true ↦
          elim (write_sectors (spc fs) 0 (cluster_to_sector fs cluster) skip offset cur_offset buf
            done d) [
              | over (done2, e) ↦ ((done2, cluster), e)
              | going (done2, e) ↦
                  let (o, g) = extend fs cluster e in
                  elim o [
                    | none ↦ ((done2, cluster), g)
                    | some next ↦
                        write_clusters fuel fs skip offset next (next_offset fs cur_offset) buf
                          done2 g
                  ]
            ]
    ]

unfoldable pub write_file : ℕ → Fat32Fs → ℕ → ℕ → List ℕ → Disk → (ℕ × ℕ) × Disk
unfolding seek_extend write_clusters
write_file fuel fs cluster offset buf d =
    if ltb cluster 2
    then ((0, cluster), d)
    else (let (o, e) = seek_extend fuel fs offset cluster 0 d in
        elim o [
          | none ↦ ((0, cluster), e)
          | some (cur_cluster, cur_offset) ↦
              write_clusters fuel fs (offset - cur_offset) offset cur_cluster cur_offset buf 0 e
        ])
