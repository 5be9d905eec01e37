-- ===== src/Fs/Format.antt =====
-- `format_fat32` of the file server, user/programs/fs-server/src/main.rs.
use nek_os.Base.{ℕ, ◌+◌, ◌-◌, ◌*◌, ◌/◌, List, [], ◌∷◌, ◌++◌, replicate, M, ◌>>◌}
use nek_os.Base.Bytes.{to_le_bytes, splice}
use nek_os.Fs.{Disk, block_size, ramdisk_sectors, disk_write, ignore, zero_block, fat32_eoc}

abbrev pub sectors_in_cluster : ℕ
sectors_in_cluster = 1

abbrev pub reserved : ℕ
reserved = 32

abbrev pub num_fats : ℕ
num_fats = 1

abbrev pub fat_entries : ℕ
fat_entries = ramdisk_sectors / sectors_in_cluster

abbrev pub fat_size : ℕ
fat_size = (fat_entries * 4 + block_size - 1) / block_size

abbrev u16 : ℕ → List ℕ
u16 = to_le_bytes 2

abbrev u32 : ℕ → List ℕ
u32 = to_le_bytes 4

-- The fields up to `fs_info`.
unfoldable pub bpb_fields : List ℕ
unfolding to_le_bytes
bpb_fields =
    0xEB ∷ 0x58 ∷ 0x90 ∷ b'N' ∷ b'E' ∷ b'K' ∷ b'O' ∷ b'S' ∷ b' ' ∷ b' ' ∷ b' ' ∷ []
    ++ (u16 512
        ++ (sectors_in_cluster ∷ u16 reserved
            ++ (num_fats ∷ u16 0
                ++ (u16 0
                    ++ (0xF8 ∷ u16 0
                        ++ (u16 1
                            ++ (u16 1
                                ++ (u32 0
                                    ++ (u32 ramdisk_sectors
                                        ++ (u32 fat_size
                                            ++ (u16 0
                                                ++ (u16 0 ++ (u32 2 ++ (u16 1 ++ u16 6))))))))))))))

-- The fields from offset 64 on.
unfoldable pub bpb_tail : List ℕ
unfolding to_le_bytes
bpb_tail =
    0x80 ∷ 0 ∷ 0x29 ∷ u32 0x12345678
    ++ (b'N' ∷ b'E' ∷ b'K' ∷ b'O' ∷ b'S' ∷ replicate 6 b' '
        ++ (b'F' ∷ b'A' ∷ b'T' ∷ b'3' ∷ b'2' ∷ replicate 3 b' '))

unfoldable pub boot_sector : List ℕ
unfolding bpb_fields bpb_tail splice zero_block
boot_sector = splice (splice (splice zero_block 0 bpb_fields) 64 bpb_tail) 510 (0x55 ∷ 0xAA ∷ [])

unfoldable pub fs_info : List ℕ
unfolding splice to_le_bytes zero_block
fs_info =
    splice
      (splice (splice zero_block 0 (0x52 ∷ 0x52 ∷ 0x61 ∷ 0x41 ∷ [])) 484
        (0x72 ∷ 0x72 ∷ 0x41 ∷ 0x61 ∷ u32 (ramdisk_sectors / sectors_in_cluster - 33) ++ u32 3))
      508 (0x00 ∷ 0x00 ∷ 0x55 ∷ 0xAA ∷ [])

-- The first sector of the table: the two reserved entries and the root directory's.
unfoldable pub first_fat_sector : List ℕ
unfolding splice to_le_bytes zero_block
first_fat_sector = splice zero_block 0 (u32 0x0FFFFFF8 ++ (u32 0x0FFFFFFF ++ u32 fat32_eoc))

unfoldable pub format_fat32 : M Disk (Unit {0})
unfolding boot_sector fs_info first_fat_sector disk_write zero_block
format_fat32 = do
  disk_write 0 boot_sector
  disk_write 6 boot_sector
  ignore (disk_write 1 fs_info)
  ignore (disk_write reserved first_fat_sector)
  ignore (disk_write (reserved + fat_size) zero_block)
