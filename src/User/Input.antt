-- ===== src/User/Input.antt =====
-- `read` of user/userlib/src/io.rs over the console server.
use nek_os.Base.{
  ℕ, suc, ◌+◌, ◌%◌, ◌<◌, true, false, ◌⊎◌, Option, none, some, List, [], ◌∷◌, ◌++◌, drop, length,
  ◌==◌, if◌then◌else◌, M, ◌≡◌, refl, sym, ap, ◌∙◌, inl, inr, arith, Bool-cases, Option-cases, subst,
}
use nek_os.Base.Words.{usize_max}
use nek_os.Ipc.{Words}
use nek_os.User.Io.{console_endpoint, read_words, read_bytes, read}
use nek_os.User.Console.{word, console_getc, serve_console}
use nek_os.User.Terminal.{IsBytes, heard, line, IsUart, console_call}

-- What `read` gives once it knows the byte, with what follows.
abbrev read_on : {S : Type 0} → ℕ → List ℕ → ℕ → S → ℕ × List ℕ × S → ℕ × List ℕ × S
read_on c slots index s1 r = if c == b'\n' then (index + 1, c ∷ slots, s1) else (r.0, c ∷ r.1, r.2)

abbrev after_read :
    {S : Type 0} → Option Words × S → ℕ → List ℕ → ℕ → (S → ℕ × List ℕ × S) → ℕ × List ℕ × S
after_read r slot slots index go = elim r.0 [
  | none ↦ (usize_max, slot ∷ slots, r.1)
  | some w ↦ read_on (w.w0 % 256) slots index r.1 (go r.1)
]

read_bytes-step :
    {S : Type 0} (call : ℕ → Words → M S Words) (slot : ℕ) (slots : List ℕ) (index : ℕ) (w : Words)
    (s s1 : S)
    → call console_endpoint read_words s ≡ (some w, s1)
    → read_bytes call (slot ∷ slots) index s
      ≡ read_on (w.w0 % 256) slots index s1 (read_bytes call slots (index + 1) s1)
unfolding read_bytes
read_bytes-step {S} call slot slots index w s s1 e =
    ap
      (λ (r : Option Words × S).
        after_read r slot slots index (λ t. read_bytes call slots (index + 1) t))
      e

some_pair : {x y : List ℕ × List ℕ} → some x ≡ some y → x ≡ y
some_pair {x} e = ap (λ (o : Option (List ℕ × List ℕ)). elim o [ none ↦ x | some v ↦ v ]) e

-- The line is over with this byte.
line-end :
    (n b : ℕ) (bs got left : List ℕ)
    → (heard b == b'\n') ≡ true
    → line (suc n) (b ∷ bs) ≡ some (got, left)
    → (got ≡ heard b ∷ []) × (left ≡ bs)
unfolding line
line-end n b bs got left h e =
    let p : some (heard b ∷ [], bs) ≡ some (got, left) = rw h at e in
    let q = some_pair p in
    (sym (ap (λ (r : List ℕ × List ℕ). r.0) q), sym (ap (λ (r : List ℕ × List ℕ). r.1) q))

-- The line goes on behind this byte.
line-more :
    (n b : ℕ) (bs got left : List ℕ)
    → (heard b == b'\n') ≡ false
    → line (suc n) (b ∷ bs) ≡ some (got, left)
    → (more : List ℕ) × (line n bs ≡ some (more, left)) × (got ≡ heard b ∷ more)
unfolding line
line-more n b bs got left h e = elim (Option-cases (line n bs)) [
  | inl z ↦ cc (rw (h, z) at e)
  | inr ((more, l), z) ↦
      let p : some (heard b ∷ more, l) ≡ some (got, left) = rw (h, z) at e in
      let q = some_pair p in
      (
        more,
        z ∙ ap (λ (r : List ℕ × List ℕ). some (more, r.1)) q,
        sym (ap (λ (r : List ℕ × List ℕ). r.0) q),
      )
]

heard-small : (b : ℕ) → b < 256 → heard b % 256 ≡ heard b
heard-small b l = ground arith

list-cases : (xs : List ℕ) → (xs ≡ []) ⊎ ((b : ℕ) × (bs : List ℕ) × (xs ≡ b ∷ bs))
list-cases [] = inl refl
list-cases (b ∷ bs) = inr (b, bs, refl)

module _ {D : Type 0} (read_reg : ℕ → D → ℕ × D) (write_reg : ℕ → ℕ → D → D)
    (irq_wait : M D (Unit {0})) (input output : D → List ℕ)
    (uart : IsUart read_reg write_reg input output) where
  -- A request to read the next byte.
  console_call-read :
      (polls b : ℕ) (bs : List ℕ) (d : D)
      → b < 256
      → input d ≡ b ∷ bs
      → (d' : D) × (console_call read_reg write_reg irq_wait
            (suc polls)
            console_endpoint
            read_words
            d
          ≡ (some (word (heard b)), d'))
        × (input d' ≡ bs)
        × (output d' ≡ output d)
  unfolding console_call serve_console console_getc
  console_call-read polls b bs d small e =
      let d1 = (read_reg 5 d).1 in
      let (same, quiet) = uart.asked d in
      let (byte, left, out) = uart.taken b bs d1 (same ∙ e) in
      let small' : ((if b == b'\r' then b'\n' else b) == usize_max) ≡ false = ground arith in
      ((read_reg 0 d1).1, rw (uart.received b bs d e, byte, small') refl, left, out ∙ quiet)

  -- The bytes given, the rest of the buffer, and what the device has left.
  record Got (got left slots : List ℕ) (index : ℕ) (d : D) (r : ℕ × List ℕ × D) : Type 0 where
    count : r.0 ≡ index + length got
    buffer : r.1 ≡ got ++ drop (length got) slots
    rest : input r.2 ≡ left
    quiet : output r.2 ≡ output d

  read_bytes-Got :
      (polls : ℕ) (slots : List ℕ) (index : ℕ) (d : D) (got left : List ℕ)
      → line (length slots) (input d) ≡ some (got, left)
      → IsBytes (input d)
      → Got got left slots index d
          (read_bytes (console_call read_reg write_reg irq_wait (suc polls)) slots index d)
  unfolding read_bytes line
  read_bytes-Got polls [] index d got left e small =
      let g : got ≡ [] = cc in
      let l : input d ≡ left = cc in
      rw g (record { count = omega arith; buffer = refl; rest = l; quiet = refl })
  read_bytes-Got polls (slot ∷ slots) index d got left e small = elim (list-cases (input d)) [
    | inl z ↦ cc (rw z at e)
    | inr (b, bs, z) ↦
        let (byte, bytes) : (b < 256) × IsBytes bs = subst IsBytes z small in
        let (d1, answer, left1, quiet1) = console_call-read polls b bs d byte z in
        let step =
          read_bytes-step (console_call read_reg write_reg irq_wait (suc polls)) slot slots index
            (word (heard b)) d d1 answer in
        let small' : heard b % 256 ≡ heard b = heard-small b byte in
        let again = read_bytes-Got polls slots (index + 1) d1 in
        let after =
          read_bytes (console_call read_reg write_reg irq_wait (suc polls)) slots (index + 1) d1 in
        let on = step ∙ ap (λ (x : ℕ). read_on x slots index d1 after) small' in
        elim (Bool-cases (heard b == b'\n')) [
          | inl h ↦
              let (g, l) =
                line-end (length slots) b bs got left h
                  (ap (line (suc (length slots))) (sym z) ∙ e) in
              subst (Got got left (slot ∷ slots) index d) (sym on) (
                rw (h, g, l)
                  (record { count = omega arith; buffer = refl; rest = left1; quiet = quiet1 }))
          | inr h ↦
              let (more, e1, g) =
                line-more (length slots) b bs got left h
                  (ap (line (suc (length slots))) (sym z) ∙ e) in
              let r =
                again more left (ap (line (length slots)) left1 ∙ e1)
                  (subst IsBytes (sym left1) bytes) in
              subst (Got got left (slot ∷ slots) index d) (sym on) (
                rw (h, g)
                  (record {
                    count = omega (arith, r.count);
                    buffer = ap (λ xs. heard b ∷ xs) r.buffer;
                    rest = r.rest;
                    quiet = r.quiet ∙ quiet1;
                  }))
        ]
  ]

  -- io::read from standard input, over the console server and a UART with a ready transmitter that has
  -- received a line, or as many bytes as the buffer holds, returns the length of this line and puts it at
  -- the front of the buffer, a carriage return as a line feed; the rest of the buffer stays, what is behind
  -- the line stays in the UART, and nothing is sent.
  pub read-line :
      (polls : ℕ) (buf : List ℕ) (d : D) (got left : List ℕ)
      → line (length buf) (input d) ≡ some (got, left)
      → IsBytes (input d)
      → let r = read (console_call read_reg write_reg irq_wait (suc polls)) 0 buf d in
        (r.0 ≡ length got)
        × (r.1 ≡ got ++ drop (length got) buf)
        × (input r.2 ≡ left)
        × (output r.2 ≡ output d)
  unfolding read
  read-line polls buf d got left e small =
      let g = read_bytes-Got polls buf 0 d got left e small in
      (omega (arith, g.count), g.buffer, g.rest, g.quiet)
