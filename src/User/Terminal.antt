-- ===== src/User/Terminal.antt =====
-- The console server, user/programs/console/src/main.rs, as its clients see it, and a UART that behaves
-- as documented.
use nek_os.Base.{
  ℕ, zero, suc, ◌<◌, bit_and, false, Option, none, some, List, [], ◌∷◌, ◌++◌, ◌==◌, if◌then◌else◌,
  and_then, M, ◌≡◌,
}
use nek_os.Boot.{console_endpoint}
use nek_os.Base.Words.{usize_max}
use nek_os.Ipc.{Words}
use nek_os.User.Console.{serve_console}

-- A byte at the UART becomes two where it is a line feed.
abbrev pub crlf_byte : ℕ → List ℕ
crlf_byte b = if b == b'\n' then b'\r' ∷ b'\n' ∷ [] else b ∷ []

unfoldable pub crlf : List ℕ → List ℕ
crlf [] = []
crlf (b ∷ bs) = crlf_byte b ++ crlf bs

-- Bytes: numbers below 256.
abbrev pub IsBytes : List ℕ → Type 0
IsBytes [] = Unit
IsBytes (b ∷ bs) = (b < 256) × IsBytes bs

-- A byte as the console passes it on: a carriage return is a line feed.
abbrev pub heard : ℕ → ℕ
heard b = if b == b'\r' then b'\n' else b

-- A line of at most `n` bytes of the input, to its line feed, for which a carriage return counts too,
-- and what is behind it; `none` where the input ends before.
unfoldable pub line : ℕ → List ℕ → Option (List ℕ × List ℕ)
line zero bs = some ([], bs)
line (suc n) [] = none
line (suc n) (b ∷ bs) =
    let c = heard b in
    let rest = line n bs in
    if c == b'\n' then some (c ∷ [], bs) else and_then rest (λ r. some (c ∷ r.0, r.1))

-- A UART with the bytes that it has received and sent: the status register tells whether one is
-- received, and the transmitter is ready.
pub record IsUart {D : Type 0} (read_reg : ℕ → D → ℕ × D) (write_reg : ℕ → ℕ → D → D)
    (input output : D → List ℕ) : Type 0 where
  pub ready : (d : D) → (bit_and (read_reg 5 d).0 0x20 == 0) ≡ false
  pub received :
      (b : ℕ) (bs : List ℕ) (d : D)
      → input d ≡ b ∷ bs
      → (bit_and (read_reg 5 d).0 0x01 == 0) ≡ false
  pub asked : (d : D) → (input (read_reg 5 d).1 ≡ input d) × (output (read_reg 5 d).1 ≡ output d)
  pub taken :
      (b : ℕ) (bs : List ℕ) (d : D)
      → input d ≡ b ∷ bs
      → ((read_reg 0 d).0 ≡ b)
        × (input (read_reg 0 d).1 ≡ bs)
        × (output (read_reg 0 d).1 ≡ output d)
  pub sent :
      (c : ℕ) (d : D)
      → (output (write_reg 0 c d) ≡ output d ++ c ∷ []) × (input (write_reg 0 c d) ≡ input d)

module _ {D : Type 0} (read_reg : ℕ → D → ℕ × D) (write_reg : ℕ → ℕ → D → D)
    (irq_wait : M D (Unit {0})) where
  -- What `ipc::call` returns at the endpoint that the kernel registers for the console server: the words
  -- of its reply, of which the first is `usize::MAX` for an error. The console server has no other.
  unfoldable pub console_call : ℕ → ℕ → Words → M D Words
  console_call polls endpoint words d =
      let (r, d1) = serve_console read_reg write_reg irq_wait polls words d in
      if endpoint == console_endpoint
      then (and_then r (λ w. if w.w0 == usize_max then none else some w), d1)
      else (none, d)
