-- ===== src/User/Editor.antt =====
-- The line editor of the shell, user/programs/shell/src/main.rs, over the console server.
use nek_os.Base.{
  ℕ, suc, ◌+◌, ◌<◌, true, false, Option, none, some, List, [], ◌∷◌, ◌++◌, set, length, take, ltb,
  ◌==◌, M, ◌≡◌, refl, sym, ap, ◌∙◌, inl, inr, arith, subst, Bool-cases,
}
use nek_os.Ipc.{Words}
use nek_os.User.Io.{write, read}
use nek_os.User.Terminal.{IsBytes, heard, line, IsUart, console_call}
use nek_os.User.Output.{write-sends}
use nek_os.User.Input.{read-line}
use nek_os.User.Shell.{is_erase, rub_out, print, read_line}
use nek_os.User.Edit.{
  drop_last, edited, InBuffer, shorter, longer, edited-end, edited-erase, edited-more, edited-full,
  edited-waits,
}
use nek_os.User.Keys.{
  read_line-full, read_line-erase, read_line-nothing, read_line-end, read_line-more,
}

line-byte : (b : ℕ) (bs : List ℕ) → line 1 (b ∷ bs) ≡ some (heard b ∷ [], bs)
unfolding line
line-byte b bs = elim (Bool-cases (heard b == b'\n')) [ inl h ↦ rw h refl | inr h ↦ rw h refl ]

heard-byte : (b : ℕ) → b < 256 → heard b < 256
heard-byte b l = ground arith

none_left : (typed : List ℕ) → ltb 0 (length typed) ≡ false → drop_last typed ≡ typed
none_left [] h = refl
none_left (x ∷ xs) h = absurd (ground arith)

some_pair : {x y : List ℕ × List ℕ} → some x ≡ some y → x ≡ y
some_pair {x} e = ap (λ (o : Option (List ℕ × List ℕ)). elim o [ none ↦ x | some v ↦ v ]) e

below : (n room : ℕ) → ltb (n + 1) room ≡ true → n + 1 < room
below n room h = ground arith

module _ {D : Type 0} (read_reg : ℕ → D → ℕ × D) (write_reg : ℕ → ℕ → D → D)
    (irq_wait : M D (Unit {0})) (input output : D → List ℕ)
    (uart : IsUart read_reg write_reg input output) (polls : ℕ) where
  abbrev ask : ℕ → Words → M D Words
  ask = console_call read_reg write_reg irq_wait (suc polls)

  -- The editor ends with the line `got`, and leaves the device with `left`.
  record Edited (room : ℕ) (got left : List ℕ) (r : Option (ℕ × List ℕ × D)) : Type 0 where
    buffer : List ℕ
    device : D
    ends : r ≡ some (length got, buffer, device)
    holds : InBuffer room got buffer
    rest : input device ≡ left

  next_byte :
      (b : ℕ) (bs : List ℕ) (d : D)
      → input d ≡ b ∷ bs
      → IsBytes (b ∷ bs)
      → let r = read ask 0 (0 ∷ []) d in (r.0 ≡ 1) × (r.1 ≡ heard b ∷ []) × (input r.2 ≡ bs)
  next_byte b bs d e small =
      let (n, buf, left, quiet) =
        read-line read_reg write_reg irq_wait input output uart polls (0 ∷ []) d (heard b ∷ []) bs
          (ap (line 1) e ∙ line-byte b bs) (subst IsBytes (sym e) small) in
      (n, buf, left)

  echo :
      (text : List ℕ) (d : D)
      → IsBytes text
      → let r = write ask 1 text d in (r.0 ≡ length text) × (input r.1 ≡ input d)
  echo text d small =
      let (n, out, same) =
        write-sends read_reg write_reg irq_wait input output uart polls 1 text d (inl refl) small in
      (n, same)

  print-input : (d : D) → input (print ask rub_out d) ≡ input d
  unfolding print
  print-input d = (echo rub_out d (omega arith, (omega arith, (omega arith, tt)))).1

  -- The editor stops here.
  stopped :
      (room : ℕ) (typed buf bs : List ℕ) (d : D) (got left : List ℕ) (r : Option (ℕ × List ℕ × D))
      → r ≡ some (length typed, buf, d)
      → input d ≡ bs
      → InBuffer room typed buf
      → ◌≡◌ {A = List ℕ × List ℕ} (typed, bs) (got, left)
      → Edited room got left r
  stopped room typed buf bs d got left r ends z v p =
      let g = ap (λ (y : List ℕ × List ℕ). y.0) p in
      record {
        buffer = buf;
        device = d;
        ends = ends ∙ ap (λ (y : List ℕ). some (length y, buf, d)) g;
        holds = subst (λ (y : List ℕ). InBuffer room y buf) g v;
        rest = z ∙ ap (λ (y : List ℕ × List ℕ). y.1) p;
      }

  full :
      (rounds room : ℕ) (typed buf bs : List ℕ) (d : D) (got left : List ℕ)
      → ltb (length typed + 1) room ≡ false
      → input d ≡ bs
      → InBuffer room typed buf
      → edited room bs typed ≡ some (got, left)
      → Edited room got left (read_line ask (suc rounds) (length typed) buf d)
  full rounds room typed buf bs d got left h z v e =
      stopped room typed buf bs d got left _
        (read_line-full ask rounds (length typed) buf d (rw (v.size) h)) z v
        (some_pair (sym (edited-full room bs typed h) ∙ e))

  Edited-from :
      (room : ℕ) (got left : List ℕ) (r r' : Option (ℕ × List ℕ × D))
      → r ≡ r'
      → Edited room got left r'
      → Edited room got left r
  Edited-from room got left r r' q v = subst (Edited room got left) (sym q) v

  editing :
      (bs : List ℕ) (room : ℕ) (typed buf : List ℕ) (d : D) (got left : List ℕ)
      → input d ≡ bs
      → IsBytes bs
      → InBuffer room typed buf
      → edited room bs typed ≡ some (got, left)
      → Edited room got left (read_line ask (suc (length bs)) (length typed) buf d)
  editing [] room typed buf d got left z small v e =
      elim (Bool-cases (ltb (length typed + 1) room)) [
        | inr h ↦ full 0 room typed buf [] d got left h z v e
        | inl h ↦ cc (sym (edited-waits room typed h) ∙ e)
      ]
  editing (b ∷ bs) room typed buf d got left z (byte, bytes) v e =
      let c = heard b in
      let r = suc (length bs) in
      let n = length typed in
      let (one, byt, after) = next_byte b bs d z (byte, bytes) in
      let d1 = (read ask 0 (0 ∷ []) d).2 in
      let (w, same) = echo (c ∷ []) d1 (heard-byte b byte, tt) in
      let d2 = (write ask 1 (c ∷ []) d1).1 in
      elim (Bool-cases (ltb (n + 1) room)) [
        | inr h ↦ full r room typed buf (b ∷ bs) d got left h z v e
        | inl h ↦
            let hb : ltb (n + 1) (length buf) ≡ true = rw (v.size) h in
            elim (Bool-cases (is_erase c)) [
              | inl er ↦
                  let e' = sym (edited-erase room b bs typed h er) ∙ e in
                  let (less, v') = shorter room typed buf v in
                  elim (Bool-cases (ltb 0 n)) [
                    | inl l ↦
                        let d3 = print ask rub_out d1 in
                        Edited-from room got left _ _
                          (read_line-erase ask r n buf d c hb one byt er l
                            ∙ ap (λ (x : ℕ). read_line ask r x buf d3) (sym less))
                          (editing bs room (drop_last typed) buf d3 got left
                            (print-input d1 ∙ after) bytes v' e')
                    | inr l ↦
                        Edited-from room got left _ _
                          (read_line-nothing ask r n buf d c hb one byt er l)
                          (editing bs room typed buf d1 got left after bytes v
                            (sym (ap (edited room bs) (none_left typed l)) ∙ e'))
                  ]
              | inr er ↦ elim (Bool-cases (c == b'\n')) [
                | inl l ↦
                    stopped room typed buf bs d2 got left _
                      (read_line-end ask r n buf d c hb one byt er w l) (same ∙ after) v
                      (some_pair (sym (edited-end room b bs typed h er l) ∙ e))
                | inr l ↦
                    let (more, v') = longer room typed buf c (below n room h) v in
                    Edited-from room got left _ _
                      (read_line-more ask r n buf d c hb one byt er w l
                        ∙ ap (λ (x : ℕ). read_line ask r x (set buf n c) d2) (sym more))
                      (editing bs room (typed ++ c ∷ []) (set buf n c) d2 got left (same ∙ after)
                        bytes v' (sym (edited-more room b bs typed h er l) ∙ e))
              ]
            ]
      ]

  -- read_line of the shell, over the console server and a UART whose transmitter is always ready and that
  -- has received the whole line, ends after one round more than there are bytes, with the line as edited
  -- at the front of the buffer: a backspace or a delete takes the byte before it away, a line feed or a
  -- carriage return ends the line and is not part of it, and so does a buffer with one byte left. What is
  -- behind the line stays in the UART.
  pub read_line-edited :
      (buf : List ℕ) (d : D) (got left : List ℕ)
      → edited (length buf) (input d) [] ≡ some (got, left)
      → IsBytes (input d)
      → (buf' : List ℕ) × (d' : D) × (read_line
            (console_call read_reg write_reg irq_wait (suc polls))
            (suc (length (input d)))
            0
            buf
            d
          ≡ some (length got, buf', d'))
        × (length buf' ≡ length buf)
        × (take (length got) buf' ≡ got)
        × (input d' ≡ left)
  read_line-edited buf d got left e small =
      let r =
        editing (input d) (length buf) [] buf d got left refl small
          (record { size = refl; fits = omega arith; front = refl }) e in
      (r.buffer, r.device, r.ends, r.holds.size, r.holds.front, r.rest)
