-- ===== src/User/Edit.antt =====
-- What a user of the shell's line editor, user/programs/shell/src/main.rs, has typed.
use nek_os.Base.{
  ℕ, zero, suc, ◌+◌, ◌-◌, ◌<◌, ◌≤◌, true, false, Option, none, some, List, [], ◌∷◌, ◌++◌, set,
  length, take, length-append, length-take, length-set, ltb, ◌==◌, if◌then◌else◌, ◌≡◌, refl, sym,
  ap, ◌∙◌, arith,
}
use nek_os.User.Terminal.{heard}
use nek_os.User.Shell.{is_erase}

abbrev pub drop_last : List ℕ → List ℕ
drop_last xs = take (length xs - 1) xs

-- The line that a user of a buffer of `room` bytes has typed, with `typed` in it already, and what is
-- behind it: an erased byte takes the one before it away, a line feed ends the line, and so does a full
-- buffer. `none` where the input ends before.
unfoldable pub edited : ℕ → List ℕ → List ℕ → Option (List ℕ × List ℕ)
edited room [] typed = if ltb (length typed + 1) room then none else some (typed, [])
edited room (b ∷ bs) typed =
    let erased = edited room bs (drop_last typed) in
    let more = edited room bs (typed ++ heard b ∷ []) in
    if ltb (length typed + 1) room
    then (if is_erase (heard b)
        then erased
        else (if heard b == b'\n' then some (typed, bs) else more))
    else some (typed, b ∷ bs)

take-set :
    (n : ℕ) (xs : List ℕ) (v : ℕ) → n < length xs → take (suc n) (set xs n v) ≡ take n xs ++ v ∷ []
take-set n [] v h = absurd (omega arith)
take-set zero (x ∷ xs) v h = refl
take-set (suc n) (x ∷ xs) v h = ap (λ ys. x ∷ ys) (take-set n xs v (omega arith))

take-take : (n m : ℕ) (xs : List ℕ) → n ≤ m → take n (take m xs) ≡ take n xs
take-take zero m xs h = refl
take-take (suc n) zero xs h = absurd (omega arith)
take-take (suc n) (suc m) [] h = refl
take-take (suc n) (suc m) (x ∷ xs) h = ap (λ ys. x ∷ ys) (take-take n m xs (omega arith))

-- The buffer holds the bytes typed so far.
pub record InBuffer (room : ℕ) (typed buf : List ℕ) : Type 0 where
  pub size : length buf ≡ room
  pub fits : length typed ≤ room
  pub front : take (length typed) buf ≡ typed

pub shorter :
    (room : ℕ) (typed buf : List ℕ)
    → InBuffer room typed buf
    → (length (drop_last typed) ≡ length typed - 1) × InBuffer room (drop_last typed) buf
shorter room typed buf v =
    let less : length (drop_last typed) ≡ length typed - 1 =
      omega (arith, length-take (length typed - 1) typed) in
    (
      less,
      record {
        size = v.size;
        fits = omega (arith, less, v.fits);
        front =
            ap (λ (n : ℕ). take n buf) less
            ∙ sym (take-take (length typed - 1) (length typed) buf (omega arith))
            ∙ ap (take (length typed - 1)) v.front;
      },
    )

pub longer :
    (room : ℕ) (typed buf : List ℕ) (b : ℕ)
    → length typed + 1 < room
    → InBuffer room typed buf
    → (length (typed ++ b ∷ []) ≡ length typed + 1)
      × InBuffer room (typed ++ b ∷ []) (set buf (length typed) b)
longer room typed buf b small v =
    let more : length (typed ++ b ∷ []) ≡ length typed + 1 = length-append typed (b ∷ []) in
    let more' : length (typed ++ b ∷ []) ≡ suc (length typed) = omega (arith, more) in
    (
      more,
      record {
        size = length-set buf (length typed) b ∙ v.size;
        fits = omega (arith, more);
        front =
            ap (λ (n : ℕ). take n (set buf (length typed) b)) more'
            ∙ take-set (length typed) buf b (omega (arith, v.size))
            ∙ ap (λ (xs : List ℕ). xs ++ b ∷ []) v.front;
      },
    )

pub edited-end :
    (room b : ℕ) (bs typed : List ℕ)
    → ltb (length typed + 1) room ≡ true
    → is_erase (heard b) ≡ false
    → (heard b == b'\n') ≡ true
    → edited room (b ∷ bs) typed ≡ some (typed, bs)
unfolding edited
edited-end room b bs typed h e l = rw (h, e, l) refl

pub edited-erase :
    (room b : ℕ) (bs typed : List ℕ)
    → ltb (length typed + 1) room ≡ true
    → is_erase (heard b) ≡ true
    → edited room (b ∷ bs) typed ≡ edited room bs (drop_last typed)
unfolding edited
edited-erase room b bs typed h e = rw (h, e) refl

pub edited-more :
    (room b : ℕ) (bs typed : List ℕ)
    → ltb (length typed + 1) room ≡ true
    → is_erase (heard b) ≡ false
    → (heard b == b'\n') ≡ false
    → edited room (b ∷ bs) typed ≡ edited room bs (typed ++ heard b ∷ [])
unfolding edited
edited-more room b bs typed h e l = rw (h, e, l) refl

pub edited-full :
    (room : ℕ) (bs typed : List ℕ)
    → ltb (length typed + 1) room ≡ false
    → edited room bs typed ≡ some (typed, bs)
unfolding edited
edited-full room [] typed h = rw h refl
edited-full room (b ∷ bs) typed h = rw h refl

pub edited-waits :
    (room : ℕ) (typed : List ℕ) → ltb (length typed + 1) room ≡ true → edited room [] typed ≡ none
unfolding edited
edited-waits room typed h = rw h refl
