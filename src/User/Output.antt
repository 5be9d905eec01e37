-- ===== src/User/Output.antt =====
-- `write` of user/userlib/src/io.rs over the console server.
use nek_os.Base.{
  ℕ, suc, ◌%◌, ◌<◌, Bool, true, false, ◌⊎◌, Option, none, some, List, [], ◌∷◌, ◌++◌, length, ◌==◌,
  M, ◌≡◌, refl, sym, ap, ◌∙◌, inl, inr, arith, Bool-cases, ==_iff, subst,
}
use mathlib.Core.List.{append-nil, append_assoc}
use nek_os.Ipc.{Words}
use nek_os.User.Io.{console_endpoint, write_words, write_bytes, write}
use nek_os.User.Console.{word, console_putc, serve_console}
use nek_os.User.Terminal.{crlf_byte, crlf, IsBytes, IsUart, console_call}

abbrev after_write : {S : Type 0} → Option Words × S → (S → Bool × S) → Bool × S
after_write r go = elim r.0 [ none ↦ (false, r.1) | some words ↦ go r.1 ]

write_bytes-step :
    {S : Type 0} (call : ℕ → Words → M S Words) (b : ℕ) (bs : List ℕ) (w : Words) (s s1 : S)
    → call console_endpoint (write_words b) s ≡ (some w, s1)
    → write_bytes call (b ∷ bs) s ≡ write_bytes call bs s1
unfolding write_bytes
write_bytes-step {S} call b bs w s s1 e =
    ap (λ (r : Option Words × S). after_write r (write_bytes call bs)) e

module _ {D : Type 0} (read_reg : ℕ → D → ℕ × D) (write_reg : ℕ → ℕ → D → D)
    (irq_wait : M D (Unit {0})) (input output : D → List ℕ)
    (uart : IsUart read_reg write_reg input output) where
  -- What `putc` does to the device.
  record Put (bytes : List ℕ) (d d' : D) : Type 0 where
    out : output d' ≡ output d ++ bytes
    same : input d' ≡ input d

  putc-Put :
      (polls c : ℕ) (d : D)
      → (d' : D) × (console_putc read_reg write_reg irq_wait (suc polls) c d ≡ (some tt, d'))
        × Put (c ∷ []) d d'
  unfolding console_putc
  putc-Put polls c d =
      let d1 = (read_reg 5 d).1 in
      let (out, same) = uart.sent c d1 in
      (
        write_reg 0 c d1,
        rw (uart.ready d) refl,
        record {
          out = out ∙ ap (λ xs. xs ++ c ∷ []) (uart.asked d).1;
          same = same ∙ (uart.asked d).0;
        },
      )

  Put-two : {a b : List ℕ} {d d1 d2 : D} → Put a d d1 → Put b d1 d2 → Put (a ++ b) d d2
  Put-two {a} {b} {d} p q = record {
    out = q.out ∙ ap (λ xs. xs ++ b) p.out ∙ append_assoc (output d) a b;
    same = q.same ∙ p.same;
  }

  -- A request to write a byte.
  console_call-write :
      (polls b : ℕ) (d : D)
      → b < 256
      → (d' : D) × (console_call read_reg write_reg irq_wait
            (suc polls)
            console_endpoint
            (write_words b)
            d
          ≡ (some (word 1), d'))
        × Put (crlf_byte b) d d'
  unfolding console_call serve_console
  console_call-write polls b d small =
      let m : b % 256 ≡ b = omega arith in
      elim (Bool-cases (b == b'\n')) [
        | inr h ↦ let (d1, e1, p1) = putc-Put polls b d in (d1, rw (m, h, e1) refl, rw h p1)
        | inl h ↦
            let n : b ≡ b'\n' = (==_iff b b'\n').0 h in
            let (d1, e1, p1) = putc-Put polls b'\r' d in
            let (d2, e2, p2) = putc-Put polls b'\n' d1 in
            (d2, rw (n, e1, e2) refl, rw h (Put-two p1 p2))
      ]

  write_bytes-Put :
      (polls : ℕ) (buf : List ℕ) (d : D)
      → IsBytes buf
      → let r = write_bytes (console_call read_reg write_reg irq_wait (suc polls)) buf d in
        (r.0 ≡ true) × Put (crlf buf) d r.1
  unfolding write_bytes crlf
  write_bytes-Put polls [] d small =
      (refl, record { out = sym (append-nil (output d)); same = refl })
  write_bytes-Put polls (b ∷ bs) d (small, more) =
      let (d1, e, p) = console_call-write polls b d small in
      let (fine, q) = write_bytes-Put polls bs d1 more in
      let step =
        write_bytes-step (console_call read_reg write_reg irq_wait (suc polls)) b bs (word 1) d d1
          e in
      (
        ap (λ (r : Bool × D). r.0) step ∙ fine,
        subst (λ (r : Bool × D). Put (crlf_byte b ++ crlf bs) d r.1) (sym step) (Put-two p q),
      )

  -- io::write to standard output or standard error, over the console server and a UART that is ready,
  -- returns the number of bytes given, and exactly these are sent, each line feed behind a carriage
  -- return; nothing that the UART has received is lost.
  pub write-sends :
      (polls fd : ℕ) (buf : List ℕ) (d : D)
      → (fd ≡ 1) ⊎ (fd ≡ 2)
      → IsBytes buf
      → let r = write (console_call read_reg write_reg irq_wait (suc polls)) fd buf d in
        (r.0 ≡ length buf) × (output r.1 ≡ output d ++ crlf buf) × (input r.1 ≡ input d)
  unfolding write
  write-sends polls fd buf d (inl e) small =
      let (fine, p) = write_bytes-Put polls buf d small in rw e (rw fine refl, p.out, p.same)
  write-sends polls fd buf d (inr e) small =
      let (fine, p) = write_bytes-Put polls buf d small in rw e (rw fine refl, p.out, p.same)
