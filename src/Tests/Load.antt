-- ===== src/Tests/Load.antt =====
-- Runs of the loader of archives and images.
use nek_os.Base.{
  ℕ, ◌+◌, ◌*◌, ◌≤◌, Bool, true, false, some, List, [], ◌∷◌, ◌++◌, length, ◌≡◌, refl, arith,
  replicate,
}
use nek_os.Boot.{kernel_main}
use nek_os.Boot.Settled.{kernel_main-IsSettled}
use nek_os.Trap.{empty_frame}
use nek_os.Task.{Task, Kernel}
use nek_os.Task.Settled.{IsSettled}
use nek_os.Base.{◌⊎◌, none}
use nek_os.Initrd.{Entry, hex, magic, max_files, load_archive}
use nek_os.Initrd.Hex.{print, hex-print}
use nek_os.Initrd.Archive.{load_archive-ends}
use nek_os.Exec.{Elf64Ehdr, elf_verify, ehdr_size, phdr_size}
use nek_os.Exec.Verify.{elf_verify-bounds}

-- The file size of an entry, as build.rs prints it.
abbrev small_letters : ℕ → Bool
small_letters i = false

hex-print_example : hex (print small_letters 8 0x1a2b) ≡ some 0x1a2b
hex-print_example = hex-print small_letters 8 0x1a2b (omega arith) (omega arith)

-- An archive with one file `sh` of four bytes: 13 fields of eight digits behind the magic.
abbrev digits : ℕ → List ℕ
digits n = replicate 7 b'0' ++ (b'0' + n) ∷ []

abbrev one_file : List ℕ
one_file =
    magic
    ++ digits 1
    ++ digits 0
    ++ digits 0
    ++ digits 0
    ++ digits 1
    ++ digits 0
    ++ digits 4
    ++ digits 0
    ++ digits 0
    ++ digits 0
    ++ digits 0
    ++ digits 3
    ++ digits 0
    ++ (b's' ∷ b'h' ∷ 0 ∷ 0 ∷ 0 ∷ 0 ∷ [])
    ++ (1 ∷ 2 ∷ 3 ∷ 4 ∷ [])

-- A test of the bytes in place of the one for UTF-8.
abbrev pub any_text : List ℕ → Bool
any_text bytes = true

load_archive-ends_example :
    (es : List Entry) × (load_archive any_text one_file ≡ some es) × (length es ≤ max_files)
load_archive-ends_example = load_archive-ends any_text one_file (omega arith)

one_file_loaded :
    load_archive any_text one_file
    ≡ some (record { name = b's' ∷ b'h' ∷ []; data_bytes = 1 ∷ 2 ∷ 3 ∷ 4 ∷ [] } ∷ [])
unfolding load_archive
one_file_loaded = refl

-- The header of an image of 176 bytes with two program headers.
abbrev two_segments : Elf64Ehdr
two_segments = record {
  e_ident0 = 0x7f;
  e_ident1 = b'E';
  e_ident2 = b'L';
  e_ident3 = b'F';
  e_type = 2;
  e_machine = 243;
  e_entry = 0x1000;
  e_phoff = 64;
  e_phentsize = 56;
  e_phnum = 2;
}

two_segments-verified : elf_verify two_segments 176 ≡ true
unfolding elf_verify
two_segments-verified = refl

elf_verify-bounds_example :
    (two_segments.e_ident0 ≡ 0x7f)
    × (two_segments.e_ident1 ≡ b'E')
    × (two_segments.e_ident2 ≡ b'L')
    × (two_segments.e_ident3 ≡ b'F')
    × (two_segments.e_type ≡ 2)
    × (two_segments.e_machine ≡ 243)
    × (ehdr_size ≤ 176)
    × (two_segments.e_phoff + 1 * two_segments.e_phentsize + phdr_size ≤ 176)
elf_verify-bounds_example = elf_verify-bounds two_segments 176 1 two_segments-verified (omega arith)

kernel_main-IsSettled_example :
    (kernel_main any_text 0x8023_0000 0x8020_1000 one_file (λ a. 0) (λ a. empty_frame) (λ r. 0)
      ≡ none)
    ⊎ ((t : Task) × (k : Kernel) × (kernel_main any_text 0x8023_0000 0x8020_1000 one_file
            (λ a. 0)
            (λ a. empty_frame)
            (λ r. 0)
          ≡ some (t, k))
        × IsSettled k)
kernel_main-IsSettled_example =
    kernel_main-IsSettled any_text 0x8023_0000 0x8020_1000 one_file (λ a. 0) (λ a. empty_frame)
      (λ r. 0)
