-- ===== src/Fs/Chain.antt =====
-- Chains of clusters of the file server, user/programs/fs-server/src/main.rs, and `free_chain`.
use nek_os.Base.{
  ℕ, zero, suc, ◌+◌, ◌≤◌, Bool, true, false, ◌||◌, none, some, List, [], ◌∷◌, ltb, Bool-cases,
  length, ◌==◌, ◌≡◌, refl, inl, inr, arith, sym, subst, ◌∙◌,
}
use nek_os.Fs.{Disk, Fat32Fs, fat_next, fat_set, link}
use nek_os.Fs.Fat.{HasEntry, fat_next-fat_set}
use nek_os.Fs.Change.{free_from, free_chain}

abbrev pub has : ℕ → List ℕ → Bool
has c [] = false
has c (x ∷ xs) = (c == x) || has c xs

-- From the cluster `c` the table leads through the distinct clusters of a list to an end of the chain.
pub data Chain (fs : Fat32Fs) (d : Disk) : ℕ → List ℕ → Type 0 where
  last :
      {c v : ℕ}
      → HasEntry fs c
      → fat_next fs c d ≡ some v
      → link (some v) ≡ none
      → Chain fs d c (c ∷ [])
  step :
      {c n : ℕ} {cs : List ℕ}
      → HasEntry fs c
      → fat_next fs c d ≡ some n
      → link (some n) ≡ some n
      → has c cs ≡ false
      → Chain fs d n cs
      → Chain fs d c (c ∷ cs)

-- A chain survives a change that spares its entries.
pub Chain-frame :
    {fs : Fat32Fs} {d e : Disk} {c : ℕ} {cs : List ℕ}
    → Chain fs d c cs
    → ((i : ℕ) → HasEntry fs i → has i cs ≡ true → fat_next fs i e ≡ fat_next fs i d)
    → Chain fs e c cs
Chain-frame (last {c} h n l) same = last h (same c h (ground arith) ∙ n) l
Chain-frame (step {c} h n l out rest) same =
    step h (same c h (ground arith) ∙ n) l out (Chain-frame rest λ i k m. same i k (ground arith))

-- What the loop of `free_chain` does with the clusters of a chain.
abbrev Frees : Fat32Fs → List ℕ → ℕ → Disk → ℕ × Disk → Type 0
Frees fs cs count d r =
    (r.0 ≡ count + length cs)
    × ((i : ℕ) → HasEntry fs i → has i cs ≡ true → fat_next fs i r.1 ≡ some 0)
    × ((i : ℕ) → HasEntry fs i → has i cs ≡ false → fat_next fs i r.1 ≡ fat_next fs i d)

pub free_from-last :
    (fs : Fat32Fs) (d : Disk) (c : ℕ) {v : ℕ} (fuel count : ℕ)
    → fat_next fs c d ≡ some v
    → link (some v) ≡ none
    → free_from (suc fuel) fs c count d ≡ (count + 1, (fat_set fs c 0 d).1)
unfolding free_from
free_from-last fs d c fuel count n l = rw (n, free_from, l) refl

pub free_from-step :
    (fs : Fat32Fs) (d : Disk) (c : ℕ) {n : ℕ} (fuel count : ℕ)
    → fat_next fs c d ≡ some n
    → link (some n) ≡ some n
    → free_from (suc fuel) fs c count d ≡ free_from fuel fs n (count + 1) (fat_set fs c 0 d).1
unfolding free_from
free_from-step fs d c fuel count n l = rw (n, free_from, l) refl

free_from_lem :
    (fuel : ℕ) {fs : Fat32Fs} {d : Disk} {c : ℕ} {cs : List ℕ} (count : ℕ)
    → Chain fs d c cs
    → length cs ≤ fuel
    → Frees fs cs count d (free_from fuel fs c count d)
free_from_lem zero count (last h n l) f = absurd (omega arith)
free_from_lem zero count (step h n l out rest) f = absurd (omega arith)
free_from_lem (suc fuel) {fs} {d} count (last {c} h n l) f =
    let (ok, freed, others) = fat_next-fat_set fs c 0 d h (omega arith) in
    subst (Frees fs (c ∷ []) count d) (sym (free_from-last fs d c fuel count n l)) (
      omega arith,
      λ i k m. let e : c ≡ i = ground arith in rw (← e) freed,
      λ i k m. others i k (λ e. ground arith),
    )
free_from_lem (suc fuel) {fs} {d} count (step {c} {n} {cs} h nx l out rest) f =
    let (ok, freed, others) = fat_next-fat_set fs c 0 d h (omega arith) in
    let g = (fat_set fs c 0 d).1 in
    let chain : Chain fs g n cs = Chain-frame rest λ i k m. others i k (λ e. ground arith) in
    let (total, all, same) = free_from_lem fuel (count + 1) chain (omega arith) in
    subst (Frees fs (c ∷ cs) count d) (sym (free_from-step fs d c fuel count nx l)) (
      omega (arith, total),
      λ i k m. elim (Bool-cases (has i cs)) [
        | inl inside ↦ all i k inside
        | inr outside ↦ let e : c ≡ i = ground arith in rw (same i k outside, ← e) freed
      ],
      λ i k m.
          let outside : has i cs ≡ false = ground arith in
          rw (same i k outside) (others i k (λ e. ground arith)),
    )

-- Freeing the chain of a cluster from 2 on, with fuel for its clusters, ends, counts them, marks each of
-- them as free and leaves the entries of all other clusters as they were.
pub free_chain_lem :
    (fuel : ℕ) {fs : Fat32Fs} {d : Disk} {c : ℕ} {cs : List ℕ}
    → Chain fs d c cs
    → 2 ≤ c
    → length cs ≤ fuel
    → let (count, e) = free_chain fuel fs c d in
      (count ≡ length cs)
      × ((i : ℕ) → HasEntry fs i → has i cs ≡ true → fat_next fs i e ≡ some 0)
      × ((i : ℕ) → HasEntry fs i → has i cs ≡ false → fat_next fs i e ≡ fat_next fs i d)
unfolding free_chain
free_chain_lem fuel {fs} {d} {c} {cs} chain h f =
    let big : ltb c 2 ≡ false = ground arith in
    let run : free_chain fuel fs c d ≡ free_from fuel fs c 0 d = rw big refl in
    let (total, all, same) = subst (Frees fs cs 0 d) (sym run) (free_from_lem fuel 0 chain f) in
    (omega (arith, total), all, same)
