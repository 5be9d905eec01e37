-- ===== src/Fs/Start.antt =====
-- The start of the file server, user/programs/fs-server/src/main.rs: `format_fat32`, then `open`.
use nek_os.Base.{ℕ, suc, true, some, [], ◌≡◌, refl, arith}
use nek_os.Fs.{Disk, Fat32Bpb, Fat32Fs, fat32_eoc, fat_next}
use nek_os.Fs.Dir.{walk_dir}
use nek_os.Fs.Entries.{collect}
use nek_os.Fs.Volume.{IsVolume}
use nek_os.Fs.Server.{start}

-- The volume that the server works on.
abbrev pub bpb : Fat32Bpb
bpb = record {
  bytes_per_sector = 512;
  sectors_per_cluster = 1;
  reserved_sector_count = 32;
  num_fats = 1;
  root_entry_count = 0;
  fat_size_16 = 0;
  total_sectors_32 = 8192;
  fat_size_32 = 64;
  root_cluster = 2;
}

abbrev pub volume : Fat32Fs
volume = record {
  bpb = bpb;
  fat_start = 32;
  data_start = 96;
  total_clusters = 8096;
  root_cluster = 2;
}

pub volume-IsVolume : IsVolume volume
volume-IsVolume = record { table_in = omega arith; data_in = omega arith }

-- Whatever is on the disk, the server starts: formatting and opening give a volume of 8096 clusters of
-- one sector, whose table lies before its data and whose data lies on the disk; the root directory is a
-- chain of one cluster, and a walk through it meets no entry.
pub start_lem :
    (fuel : ℕ) (d : Disk)
    → let (o, e) = start d in
      (o ≡ some volume)
      × IsVolume volume
      × (fat_next volume 2 e ≡ some fat32_eoc)
      × (walk_dir collect (suc fuel) volume volume.root_cluster [] e ≡ (true, []))
unfolding start fat_next walk_dir
start_lem fuel d = (refl, volume-IsVolume, refl, refl)
