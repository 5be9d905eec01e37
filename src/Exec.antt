-- ===== src/Exec.antt =====
-- Loading of ELF images, src/kernel/exec.rs.
use nek_os.Base.{
  ℕ, zero, suc, ◌+◌, ◌-◌, ◌*◌, ◌/◌, ◌%◌, ◌^◌, min, max, bit_and, bit_or, Bool, true, false, ◌&&◌,
  ◌||◌, Option, none, some, List, [], ◌∷◌, get_or, length, ltb, leb, ◌==◌, if◌then◌else◌, not, M,
  pure, fail, ◌>>=◌, ◌>>◌, each,
}
use nek_os.Base.Bytes.{le_at}
use nek_os.Base.Words.{add_usize, usize_max}
use nek_os.Page.{page_size}
use nek_os.PageTable
use nek_os.PageTable.{Phys, alloc_page, pte_r, pte_w, pte_x, pte_u}
use nek_os.Vm.{map_kernel}
use nek_os.Initrd.{Entry, find}
use nek_os.Task.{Kernel, user_stack_top}
use nek_os.Task.Space.{page_mask}
use nek_os.Task.Create.{Image, create_user_image, set_phys}
use nek_os.Task.Fork.{replace_current, zero_page, user_rw}
use nek_os.Task.Buffer.{write_byte}
pub mod Verify

-- The fields of `Elf64Ehdr` that are read.
pub record Elf64Ehdr : Type 0 where
  pub e_ident0 : ℕ
  pub e_ident1 : ℕ
  pub e_ident2 : ℕ
  pub e_ident3 : ℕ
  pub e_type : ℕ
  pub e_machine : ℕ
  pub e_entry : ℕ
  pub e_phoff : ℕ
  pub e_phentsize : ℕ
  pub e_phnum : ℕ

-- The fields of `Elf64Phdr` that are read.
pub record Elf64Phdr : Type 0 where
  pub p_type : ℕ
  pub p_flags : ℕ
  pub p_offset : ℕ
  pub p_vaddr : ℕ
  pub p_filesz : ℕ
  pub p_memsz : ℕ

abbrev pub ehdr_size : ℕ
ehdr_size = 64

abbrev pub phdr_size : ℕ
phdr_size = 56

-- `read_unaligned` of the two structures.
unfoldable pub read_ehdr : List ℕ → Elf64Ehdr
unfolding le_at
read_ehdr d = record {
  e_ident0 = le_at 1 0 d;
  e_ident1 = le_at 1 1 d;
  e_ident2 = le_at 1 2 d;
  e_ident3 = le_at 1 3 d;
  e_type = le_at 2 16 d;
  e_machine = le_at 2 18 d;
  e_entry = le_at 8 24 d;
  e_phoff = le_at 8 32 d;
  e_phentsize = le_at 2 54 d;
  e_phnum = le_at 2 56 d;
}

unfoldable pub read_phdr : ℕ → List ℕ → Elf64Phdr
unfolding le_at
read_phdr o d = record {
  p_type = le_at 4 o d;
  p_flags = le_at 4 (o + 4) d;
  p_offset = le_at 8 (o + 8) d;
  p_vaddr = le_at 8 (o + 16) d;
  p_filesz = le_at 8 (o + 32) d;
  p_memsz = le_at 8 (o + 40) d;
}

-- `checked_add`, compared with the size.
unfoldable pub elf_verify : Elf64Ehdr → ℕ → Bool
elf_verify h size =
    not (ltb size ehdr_size)
    && ((h.e_ident0 == 0x7f && (h.e_ident1 == b'E' && (h.e_ident2 == b'L' && h.e_ident3 == b'F')))
        && (h.e_type == 2
            && ((h.e_machine == 243 && h.e_phentsize == phdr_size)
                && (ltb (h.e_phoff + h.e_phnum * h.e_phentsize) (2 ^ 64)
                    && leb (h.e_phoff + h.e_phnum * h.e_phentsize) size))))

-- `copy_nonoverlapping` of `n` bytes of the file from `src` on, to the address `dst`.
unfoldable pub copy_file : ℕ → List ℕ → ℕ → ℕ → Phys → Phys
unfolding write_byte
copy_file zero elf src dst s = s
copy_file (suc n) elf src dst s =
    copy_file n elf (src + 1) (dst + 1) (record s { mem = write_byte s.mem dst (get_or elf src 0) })

-- The page flags of a segment.
unfoldable pub segment_flags : ℕ → ℕ
segment_flags p_flags =
    let f0 = pte_u in
    let f1 = if bit_and p_flags 4 == 0 then f0 else bit_or f0 pte_r in
    let f2 = if bit_and p_flags 2 == 0 then f1 else bit_or f1 pte_w in
    if bit_and p_flags 1 == 0 then f2 else bit_or f2 pte_x

-- The part of the file that belongs to the page at `page_va`.
unfoldable pub fill_page : List ℕ → Elf64Phdr → ℕ → ℕ → Phys → Phys
unfolding copy_file
fill_page elf ph page_va page s =
    let copy_start = max page_va ph.p_vaddr in
    let copy_end = min (add_usize page_va page_size) (add_usize ph.p_vaddr ph.p_filesz) in
    if ltb copy_start copy_end
    then copy_file (copy_end - copy_start) elf (ph.p_offset + copy_start - ph.p_vaddr)
        (page + (copy_start - page_va)) s
    else s

-- One page of a segment.
unfoldable pub load_page : ℕ → List ℕ → Elf64Phdr → ℕ → M Phys (Unit {0})
unfolding fill_page segment_flags
load_page pt elf ph page_va = do
  page ← alloc_page
  λ s. (some tt, fill_page elf ph page_va page (zero_page page s))
  PageTable.map pt page_va page page_size (segment_flags ph.p_flags)

-- The bounds of the image so far: its lowest and highest address.
pub record Bounds : Type 0 where
  pub image_start : ℕ
  pub image_end : ℕ

abbrev segment_start : Elf64Phdr → ℕ
segment_start ph = page_mask ph.p_vaddr

abbrev segment_end : Elf64Phdr → ℕ
segment_end ph = page_mask (add_usize (add_usize ph.p_vaddr ph.p_memsz) (page_size - 1))

-- One program header; a segment that is not loaded is skipped.
unfoldable pub load_segment : ℕ → List ℕ → Elf64Phdr → Bounds → M Phys Bounds
unfolding load_page each
load_segment pt elf ph b =
    if not (ph.p_type == 1) || ph.p_memsz == 0
    then pure b
    else if leb (2 ^ 64) (ph.p_offset + ph.p_filesz)
        || (ltb ph.p_memsz ph.p_filesz || ltb (length elf) (ph.p_offset + ph.p_filesz))
    then fail
    else (do
      let va_start = segment_start ph
      let va_end = segment_end ph
      each ((va_end + 2 ^ 64 - va_start) % 2 ^ 64 / page_size) 0
          λ j. load_page pt elf ph (add_usize va_start (j * page_size))
      pure
          (record { image_start = min b.image_start va_start; image_end = max b.image_end va_end }))

-- The loop over the headers from `i` on.
unfoldable pub load_segments : ℕ → ℕ → ℕ → List ℕ → Elf64Ehdr → Bounds → M Phys Bounds
unfolding load_segment read_phdr
load_segments zero i pt elf h b = pure b
load_segments (suc n) i pt elf h b = do
  c ← load_segment pt elf (read_phdr (h.e_phoff + i * h.e_phentsize) elf) b
  load_segments n (i + 1) pt elf h c

-- `elf_load`: the entry point, the base and the size of the image.
unfoldable pub elf_load : ℕ → List ℕ → Elf64Ehdr → M Phys (ℕ × ℕ × ℕ)
unfolding load_segments
elf_load pt elf h = do
  b ← load_segments h.e_phnum 0 pt elf h (record { image_start = usize_max; image_end = 0 })
  (if b.image_start == usize_max
      then fail
      else pure (h.e_entry, b.image_start, b.image_end - b.image_start))

-- `load`: an address space that is not yet registered.
unfoldable pub load : List Entry → List ℕ → M Phys Image
unfolding elf_load elf_verify read_ehdr find
load files name s = elim (find name files) [
  | none ↦ (none, s)
  | some elf ↦
      if ltb (length elf) ehdr_size || not (elf_verify (read_ehdr elf) (length elf))
      then (none, s)
      else (do
        pt ← PageTable.create
        map_kernel pt
        image ← elf_load pt elf (read_ehdr elf)
        user_stack ← alloc_page
        λ t. (some tt, zero_page user_stack t)
        PageTable.map pt (user_stack_top - page_size) user_stack page_size user_rw
        pure (record {
          pagetable = pt;
          user_stack = user_stack;
          entry = image.0;
          image_base = image.1;
          image_size = image.2;
        }))
          s
]

-- `spawn`: a new process.
unfoldable pub spawn : List Entry → List ℕ → Kernel → Option ℕ × Kernel
unfolding load create_user_image
spawn files name k =
    let (o, s) = load files name k.phys in
    elim o [ none ↦ (none, set_phys s k) | some m ↦ create_user_image m (set_phys s k) ]

-- `exec`: a new image for the current process.
unfoldable pub exec : List Entry → List ℕ → ℕ → Kernel → Option (Unit {0}) × Kernel
unfolding load replace_current
exec files name tf k =
    let (o, s) = load files name k.phys in
    elim o [ none ↦ (none, set_phys s k) | some m ↦ replace_current m tf (set_phys s k) ]
