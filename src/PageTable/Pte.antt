-- ===== src/PageTable/Pte.antt =====
-- The encoding of page-table entries, `pa_to_pte` and `pte_to_pa` of src/kernel/pgtable.rs.
use nek_os.Base.{ℕ, ◌+◌, ◌*◌, ◌/◌, ◌%◌, ◌^◌, ◌<◌, bit_and, bit_or, true, false, ◌≡◌, refl, arith}
use nek_os.Base.Bits.{bit_or-pow_mul, bit_and_step, bit_or_step, bit_or-zero}
use nek_os.Base.Bits.Masks.{bit_and-ones}
use nek_os.PageTable.{pa_to_pte, pte_to_pa, is_valid, is_leaf, vpn}

pub pa_to_pte_lem :
    (pa flags : ℕ) → pa < 2 ^ 56 → flags < 2 ^ 10 → pa_to_pte pa flags ≡ pa / 4096 * 1024 + flags
unfolding pa_to_pte
pa_to_pte_lem pa flags h k =
    let e : pa / 2 ^ 12 * 2 ^ 10 % 2 ^ 64 ≡ pa / 4096 * 2 ^ 10 = omega arith in
    rw e (bit_or-pow_mul 10 (pa / 4096) flags k)

pub pte_to_pa_lem : (pte : ℕ) → pte_to_pa pte ≡ pte / 1024 % 2 ^ 44 * 4096
unfolding pte_to_pa
pte_to_pa_lem pte = omega (arith, bit_and-ones 44 (pte / 2 ^ 10))

-- An entry made of a page-aligned physical address of at most 56 bits and flags of at most 10 bits
-- gives the address back.
pub pte_to_pa-pa_to_pte :
    (pa flags : ℕ)
    → pa < 2 ^ 56
    → pa % 4096 ≡ 0
    → flags < 2 ^ 10
    → pte_to_pa (pa_to_pte pa flags) ≡ pa
pte_to_pa-pa_to_pte pa flags h a k =
    rw (pte_to_pa_lem (pa_to_pte pa flags), pa_to_pte_lem pa flags h k) (omega arith)

bit_and-one : (a : ℕ) → bit_and a 1 ≡ a % 2
bit_and-one a = bit_and-ones 1 a

-- `pte & (PTE_R | PTE_W | PTE_X)`
pub bit_and-rwx : (a : ℕ) → bit_and a 14 ≡ a / 2 % 8 * 2
bit_and-rwx a = omega (arith, bit_and_step a 14, bit_and-ones 3 (a / 2))

pub is_valid_lem : (pte : ℕ) → pte % 2 ≡ 1 → is_valid pte ≡ true
is_valid_lem pte h = let e : bit_and pte 1 ≡ 1 = omega (arith, bit_and-one pte) in rw e refl

pub is_valid-odd : (pte : ℕ) → is_valid pte ≡ true → pte % 2 ≡ 1
is_valid-odd pte h = ground (arith, bit_and-one pte)

pub is_valid-even : (pte : ℕ) → is_valid pte ≡ false → pte % 2 ≡ 0
is_valid-even pte h = ground (arith, bit_and-one pte)

pub is_leaf_lem : (pte : ℕ) → pte / 2 % 8 ≡ 0 → is_leaf pte ≡ false
is_leaf_lem pte h = let e : bit_and pte 14 ≡ 0 = omega (arith, bit_and-rwx pte) in rw e refl

pub or_valid : (flags : ℕ) → flags < 2 ^ 10 → (bit_or flags 1 < 2 ^ 10) × (bit_or flags 1 % 2 ≡ 1)
or_valid flags h = (
  omega (arith, bit_or_step flags 1, bit_or-zero (flags / 2)),
  omega (arith, bit_or_step flags 1),
)

pub vpn-lt : (va level : ℕ) → vpn va level < 512
vpn-lt va level = omega (arith, bit_and-ones 9 (va / 2 ^ (12 + 9 * level)))
