-- ===== src/Fs/Ends.antt =====
-- Termination of `free_chain` of the file server, user/programs/fs-server/src/main.rs, on any table:
-- each cluster that the loop leaves behind has become free.
use nek_os.Base.{
  ℕ, zero, suc, ◌+◌, ◌*◌, ◌^◌, ◌≤◌, ◌<◌, false, Option, none, some, ltb, ◌==◌, if◌then◌else◌,
  Bool-cases, Option-cases, ◌≡◌, refl, sym, ap, ◌≢◌, subst, inl, inr, arith, ◌∙◌,
}
use nek_os.Fs.{
  Disk, Fat32Fs, block_size, ramdisk_size, disk_read, offset_of, fat_sector, fat_next, link,
}
use nek_os.Fs.Fat.{
  HasEntry, fat_value, write_value, fat_next_lem, fat_set_lem, fat_value-write_value,
  fat_value-write_value_ne,
}
use nek_os.Fs.Change.{free_from, free_chain}
use nek_os.Fs.Chain.{free_from-last, free_from-step}

-- The number of clusters below `n` that are not free.
busy : Fat32Fs → ℕ → Disk → ℕ
busy fs zero d = 0
busy fs (suc n) d = (if fat_value fs n d == 0 then 0 else 1) + busy fs n d

busy-le : (fs : Fat32Fs) (n : ℕ) (d : Disk) → busy fs n d ≤ n
unfolding busy
busy-le fs zero d = omega arith
busy-le fs (suc n) d = ground (arith, busy-le fs n d)

busy_above :
    (fs : Fat32Fs) (n c : ℕ) (d : Disk) → n ≤ c → busy fs n (write_value fs c 0 d) ≡ busy fs n d
unfolding busy
busy_above fs zero c d h = refl
busy_above fs (suc n) c d h =
    rw
      (
        fat_value-write_value_ne fs c n 0 d (λ e. absurd (omega arith)),
        busy_above fs n c d (omega arith),
      )
      refl

-- Freeing a cluster that is not free leaves one fewer.
busy-write_value :
    (fs : Fat32Fs) (n c : ℕ) (d : Disk)
    → c < n
    → fat_value fs c d ≢ 0
    → busy fs n (write_value fs c 0 d) + 1 ≡ busy fs n d
unfolding busy
busy-write_value fs zero c d h ne = absurd (omega arith)
busy-write_value fs (suc n) c d h ne = elim (Bool-cases (c == n)) [
  | inl same ↦
      let e : c ≡ n = ground arith in
      let now : fat_value fs n (write_value fs c 0 d) ≡ 0 =
        rw (← e) (fat_value-write_value fs c 0 d (omega arith)) in
      let was : fat_value fs n d ≢ 0 = rw (← e) ne in
      rw (now, busy_above fs n c d (omega arith)) (ground arith)
  | inr other ↦
      let apart : n ≢ c = λ e. absurd (ground arith) in
      rw (fat_value-write_value_ne fs c n 0 d apart)
        (omega (arith, busy-write_value fs n c d (ground arith) ne))
]

-- An entry beyond the disk is not read.
entry_of_some :
    (fs : Fat32Fs) (c v : ℕ) (d : Disk)
    → fs.fat_start < 2 ^ 16
    → c < 2 ^ 32
    → fat_next fs c d ≡ some v
    → HasEntry fs c
unfolding fat_next disk_read
entry_of_some fs c v d f h e =
    elim (Bool-cases (ltb ramdisk_size (fat_sector fs c * block_size + block_size))) [
      | inl over ↦
          let o : offset_of (fat_sector fs c) ≡ fat_sector fs c * block_size = omega arith in
          let n : fat_next fs c d ≡ none = rw (o, over) refl in absurd (none_some n e)
      | inr fits ↦
          omega (arith, within (fat_sector fs c * block_size + block_size) ramdisk_size fits)
    ]
  where
    none_some : {o : Option ℕ} {v : ℕ} → o ≡ none → o ≡ some v → ⊥
    none_some n e = cc

    within : (x y : ℕ) → ltb y x ≡ false → x ≤ y
    within x y h = ground arith

link-some : (v n : ℕ) → link (some v) ≡ some n → (v ≡ n) × (2 ≤ n) × (n < 2 ^ 28)
link-some v n h = ground arith

abbrev entries : ℕ
entries = 2 ^ 20

free_from-none :
    (fs : Fat32Fs) (d : Disk) (c fuel count : ℕ)
    → fat_next fs c d ≡ none
    → free_from (suc fuel) fs c count d ≡ (count, d)
unfolding free_from
free_from-none fs d c fuel count e = rw (e, free_from) refl

freed :
    (fs : Fat32Fs) (c n : ℕ) (d : Disk)
    → HasEntry fs c
    → fat_next fs c d ≡ some n
    → 2 ≤ n
    → busy fs entries (write_value fs c 0 d) + 1 ≡ busy fs entries d
freed fs c n d entry to big = busy-write_value fs entries c d (omega (arith, entry)) λ z.
    let e : some (fat_value fs c d) ≡ some n = sym (fat_next_lem fs c d entry) ∙ to in
    absurd (ground arith)

free_from-agree :
    (fuel more : ℕ) (fs : Fat32Fs) (c count : ℕ) (d : Disk)
    → fs.fat_start < 2 ^ 16
    → c < 2 ^ 32
    → busy fs entries d < fuel
    → busy fs entries d < more
    → free_from fuel fs c count d ≡ free_from more fs c count d
free_from-agree zero more fs c count d s h f g = absurd (omega arith)
free_from-agree (suc fuel) zero fs c count d s h f g = absurd (omega arith)
free_from-agree (suc fuel) (suc more) fs c count d s h f g = elim (Option-cases (fat_next fs c d)) [
  | inl e ↦ free_from-none fs d c fuel count e ∙ sym (free_from-none fs d c more count e)
  | inr (v, e) ↦ elim (Option-cases (link (some v))) [
    | inl l ↦ free_from-last fs d c fuel count e l ∙ sym (free_from-last fs d c more count e l)
    | inr (n, l) ↦
        let (same, big, small) = link-some v n l in
        let to : fat_next fs c d ≡ some n = e ∙ ap some same in
        let linked : link (some n) ≡ some n = subst (λ (k : ℕ). link (some k) ≡ some n) same l in
        let entry = entry_of_some fs c n d s h to in
        let fewer = freed fs c n d entry to big in
        rw
          (
            free_from-step fs d c fuel count to linked,
            free_from-step fs d c more count to linked,
            fat_set_lem fs c 0 d entry,
          )
          (free_from-agree fuel more fs n (count + 1) (write_value fs c 0 d) s
            (omega (arith, small)) (omega (arith, fewer, f)) (omega (arith, fewer, g)))
  ]
]

-- `free_chain` ends on every table, also on one whose entries lead round in a circle: fuel for 2 ^ 20
-- clusters and one is enough, since more does not change the answer.
pub free_chain-ends :
    (fuel : ℕ) (fs : Fat32Fs) (c : ℕ) (d : Disk)
    → fs.fat_start < 2 ^ 16
    → c < 2 ^ 32
    → entries < fuel
    → free_chain fuel fs c d ≡ free_chain (entries + 1) fs c d
unfolding free_chain
free_chain-ends fuel fs c d s h f =
    let few = busy-le fs entries d in
    rw (free_from-agree fuel (entries + 1) fs c 0 d s h (omega (arith, few)) (omega (arith, few)))
      refl
