-- ===== src/Fs/Short.antt =====
-- Short directory entries of the file server, user/programs/fs-server/src/main.rs: what is written
-- is what is read.
use nek_os.Base.{
  ℕ, zero, suc, ◌+◌, ◌-◌, ◌*◌, ◌/◌, ◌%◌, ◌^◌, ◌≤◌, ◌<◌, List, [], ◌∷◌, ◌++◌, take, drop, length,
  get_or, ◌≡◌, refl, sym, ap, ap₂, arith, ◌∙◌, subst, length-append, length-take,
}
use nek_os.Base.Bytes
use nek_os.Base.Bytes.{splice, to_le_bytes, le_at}
use nek_os.Fs.{block_size}
use nek_os.Fs.Dir.{read_dir_entry, entry_bytes, entry_size, entries_per_sector, first_cluster}
use nek_os.Fs.Create.{put_short_entry, cluster_hi, cluster_lo}
use nek_os.Fs.Mark.{get_or-entry_bytes}

pub get_or-append_left :
    (xs ys : List ℕ) (k : ℕ) → k < length xs → get_or (xs ++ ys) k 0 ≡ get_or xs k 0
get_or-append_left [] ys k h = absurd (omega arith)
get_or-append_left (x ∷ xs) ys zero h = refl
get_or-append_left (x ∷ xs) ys (suc k) h = get_or-append_left xs ys k (omega arith)

pub get_or-append_right :
    (xs ys : List ℕ) (k : ℕ) → get_or (xs ++ ys) (length xs + k) 0 ≡ get_or ys k 0
get_or-append_right [] ys k = ap (λ n. get_or ys n 0) (omega arith)
get_or-append_right (x ∷ xs) ys k =
    let e : suc (length xs) + k ≡ suc (length xs + k) = omega arith in
    rw e (get_or-append_right xs ys k)

-- A list whose first elements are those of another.
pub take_of_get_or :
    (xs ys : List ℕ)
    → length ys ≤ length xs
    → ((k : ℕ) → k < length ys → get_or xs k 0 ≡ get_or ys k 0)
    → take (length ys) xs ≡ ys
take_of_get_or xs [] h same = refl
take_of_get_or [] (y ∷ ys) h same = absurd (omega arith)
take_of_get_or (x ∷ xs) (y ∷ ys) h same =
    ap₂ ◌∷◌ (same 0 (omega arith))
      (take_of_get_or xs ys (omega arith) λ k l. same (suc k) (omega arith))

take_nil : (n : ℕ) → take {A = ℕ} n [] ≡ []
take_nil zero = refl
take_nil (suc n) = refl

take-add : (m n : ℕ) (xs : List ℕ) → take m xs ++ take n (drop m xs) ≡ take (m + n) xs
take-add zero n xs = ap (λ k. take k xs) (omega arith)
take-add (suc m) n [] = take_nil n ∙ sym (take_nil (suc m + n))
take-add (suc m) n (x ∷ xs) =
    let e : suc m + n ≡ suc (m + n) = omega arith in rw e (ap (◌∷◌ x) (take-add m n xs))

length-drop : (n : ℕ) (xs : List ℕ) → length (drop n xs) ≡ length xs - n
length-drop zero xs = omega arith
length-drop (suc n) [] = omega arith
length-drop (suc n) (x ∷ xs) = omega (arith, length-drop n xs)

module _ (short : List ℕ) (attr c size i : ℕ) (buf : List ℕ) where
  unfoldable pub put : List ℕ
  put = put_short_entry short attr c size (i * entry_size) buf

  module _ (eleven : length short ≡ 11) (inside : i < entries_per_sector)
      (block : length buf ≡ block_size) where
    length-first : length (short ++ attr ∷ []) ≡ 12
    length-first = omega (arith, length-append short (attr ∷ []), eleven)

    pub low : (k : ℕ) → k < 12 → get_or (entry_bytes put i) k 0 ≡ get_or (short ++ attr ∷ []) k 0
    unfolding put put_short_entry
    low k h =
        get_or-entry_bytes put i k (omega (arith, h))
        ∙ Bytes.get_or-splice_before _ (i * entry_size + 26) (cluster_lo c ++ to_le_bytes 4 size)
            (i * entry_size + k) (omega (arith, h))
        ∙ Bytes.get_or-splice_before _ (i * entry_size + 20) (cluster_hi c) (i * entry_size + k)
            (omega (arith, h))
        ∙ Bytes.get_or-splice_in buf (i * entry_size) (short ++ attr ∷ []) (i * entry_size + k) k
            refl (omega (arith, length-first, inside, block)) (omega (arith, length-first, h))

    pub length_middle : length put ≡ block_size
    unfolding put put_short_entry
    length_middle =
        Bytes.length-splice _ (i * entry_size + 26) (cluster_lo c ++ to_le_bytes 4 size)
        ∙ Bytes.length-splice _ (i * entry_size + 20) (cluster_hi c)
        ∙ Bytes.length-splice buf (i * entry_size) (short ++ attr ∷ [])
        ∙ block

    pub long : 11 ≤ length (entry_bytes put i)
    long = omega (
      arith,
      length-take entry_size (drop (i * entry_size) put),
      length-drop (i * entry_size) put,
      length_middle,
      inside,
    )

    mid : (k : ℕ) → k < 2 → get_or (entry_bytes put i) (20 + k) 0 ≡ get_or (cluster_hi c) k 0
    unfolding put put_short_entry
    mid k h =
        get_or-entry_bytes put i (20 + k) (omega (arith, h))
        ∙ Bytes.get_or-splice_before _ (i * entry_size + 26) (cluster_lo c ++ to_le_bytes 4 size)
            (i * entry_size + (20 + k)) (omega (arith, h))
        ∙ Bytes.get_or-splice_in (splice buf (i * entry_size) (short ++ attr ∷ []))
            (i * entry_size + 20) (cluster_hi c) (i * entry_size + (20 + k)) k (omega arith)
            (omega
              (arith, Bytes.length-splice buf (i * entry_size) (short ++ attr ∷ []), inside, block))
            (omega (arith, h))

    high :
        (k : ℕ)
        → k < 6
        → get_or (entry_bytes put i) (26 + k) 0 ≡ get_or (cluster_lo c ++ to_le_bytes 4 size) k 0
    unfolding put put_short_entry to_le_bytes
    high k h =
        get_or-entry_bytes put i (26 + k) (omega (arith, h))
        ∙ Bytes.get_or-splice_in
            (splice (splice buf (i * entry_size) (short ++ attr ∷ [])) (i * entry_size + 20)
              (cluster_hi c))
            (i * entry_size + 26) (cluster_lo c ++ to_le_bytes 4 size) (i * entry_size + (26 + k)) k
            (omega arith)
            (omega (
              arith,
              Bytes.length-splice (splice buf (i * entry_size) (short ++ attr ∷ []))
                  (i * entry_size + 20) (cluster_hi c),
              Bytes.length-splice buf (i * entry_size) (short ++ attr ∷ []),
              inside,
              block,
            ))
            (omega (arith, h))

join_cluster :
    {hi hi2 lo lo2 c : ℕ}
    → hi ≡ c / 65536 % 256
    → hi2 ≡ c / 16777216 % 256
    → lo ≡ c % 256
    → lo2 ≡ c / 256 % 256
    → c < 2 ^ 32
    → (hi + 256 * (hi2 + 256 * 0)) * 65536 + (lo + 256 * (lo2 + 256 * 0)) ≡ c
join_cluster p q r s h = omega arith

-- A short entry of eleven name bytes that is put at a place of a sector is read there with its name,
-- attributes, first cluster and size, where cluster and size are of 32 bits.
pub read_dir_entry-put_short_entry :
    (short : List ℕ) (attr c size i : ℕ) (buf : List ℕ)
    → length short ≡ 11
    → i < entries_per_sector
    → length buf ≡ block_size
    → c < 2 ^ 32
    → size < 2 ^ 32
    → let e =
        read_dir_entry (entry_bytes (put_short_entry short attr c size (i * entry_size) buf) i) in
      (e.name ++ e.ext ≡ short) × (e.attr ≡ attr) × (first_cluster e ≡ c) × (e.file_size ≡ size)
unfolding read_dir_entry le_at put to_le_bytes
read_dir_entry-put_short_entry short attr c size i buf eleven inside block small fits =
    let at_low = low short attr c size i buf eleven inside block in
    let at_mid = mid short attr c size i buf eleven inside block in
    let at_high = high short attr c size i buf eleven inside block in
    let e = entry_bytes (put_short_entry short attr c size (i * entry_size) buf) i in
    let total = length-first short attr c size i buf eleven inside block in
    let at_attr : get_or e 11 0 ≡ attr =
      at_low 11 (omega arith)
      ∙ ap (λ (k : ℕ). get_or (short ++ attr ∷ []) k 0) (omega (arith, eleven))
      ∙ get_or-append_right short (attr ∷ []) 0 in
    (
      take-add 8 3 e
          ∙ subst (λ (n : ℕ). take n e ≡ short) eleven
              (take_of_get_or e short
                (omega (arith, long short attr c size i buf eleven inside block, eleven))
                λ k l.
                  at_low k (omega (arith, l, eleven)) ∙ get_or-append_left short (attr ∷ []) k l),
      omega (arith, at_attr),
      join_cluster (at_mid 0 (omega arith)) (at_mid 1 (omega arith)) (at_high 0 (omega arith))
          (at_high 1 (omega arith)) small,
      rw
          (
            at_high 2 (omega arith),
            at_high 3 (omega arith),
            at_high 4 (omega arith),
            at_high 5 (omega arith),
          )
          (Bytes.le_at-to_le_bytes 4 size (omega (arith, fits))),
    )
