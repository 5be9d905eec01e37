-- ===== src/Exec/Verify.antt =====
-- What `elf_verify` of src/kernel/exec.rs guarantees to `elf_load`.
use nek_os.Base.{ℕ, ◌+◌, ◌*◌, ◌^◌, ◌≤◌, ◌<◌, Bool, true, ◌&&◌, ltb, leb, ◌==◌, not, ◌≡◌, arith}
use native.Mathlib.Nat.{mul-le-mul_right}
use nek_os.Exec.{Elf64Ehdr, ehdr_size, phdr_size, elf_verify}

magic_parts :
    (a b c d : ℕ)
    → (a == 0x7f && (b == b'E' && (c == b'L' && d == b'F'))) ≡ true
    → (a ≡ 0x7f) × (b ≡ b'E') × (c ≡ b'L') × (d ≡ b'F')
magic_parts a b c d h = ground arith

parts :
    (b : Bool) (t a e end size : ℕ)
    → (not (ltb size ehdr_size)
        && (b && (t == 2 && ((a == 243 && e == phdr_size) && (ltb end (2 ^ 64) && leb end size)))))
      ≡ true
    → (b ≡ true) × (t ≡ 2) × (a ≡ 243) × (e ≡ phdr_size) × (ehdr_size ≤ size) × (end ≤ size)
parts b t a e end size h = ground arith

-- A header that `elf_verify` accepts has the magic number, type and machine that it asks for, and
-- every program header that it names lies within the file, so that `elf_load` reads none beyond it.
pub elf_verify-bounds :
    (h : Elf64Ehdr) (size i : ℕ)
    → elf_verify h size ≡ true
    → i < h.e_phnum
    → (h.e_ident0 ≡ 0x7f)
      × (h.e_ident1 ≡ b'E')
      × (h.e_ident2 ≡ b'L')
      × (h.e_ident3 ≡ b'F')
      × (h.e_type ≡ 2)
      × (h.e_machine ≡ 243)
      × (ehdr_size ≤ size)
      × (h.e_phoff + i * h.e_phentsize + phdr_size ≤ size)
unfolding elf_verify
elf_verify-bounds h size i v l =
    let (m, t, a, e, p, q) =
      parts _ h.e_type h.e_machine h.e_phentsize (h.e_phoff + h.e_phnum * h.e_phentsize) size v in
    let (m0, m1, m2, m3) = magic_parts h.e_ident0 h.e_ident1 h.e_ident2 h.e_ident3 m in
    (m0, m1, m2, m3, t, a, p, omega (arith, mul-le-mul_right h.e_phentsize (last l)))
  where
    last : {a b : ℕ} → a < b → a + 1 ≤ b
    last h = omega arith
