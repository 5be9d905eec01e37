-- ===== src/User/Io.antt =====
-- Standard input and output, user/userlib/src/io.rs. `ipc::call` is a parameter, on the state `S` of
-- whatever answers it.
use nek_os.Base.{
  ℕ, ◌+◌, ◌%◌, Bool, true, false, ◌&&◌, none, some, List, [], ◌∷◌, length, ◌==◌, if◌then◌else◌, not,
  M,
}
use nek_os.Base.Words.{usize_max}
use nek_os.Ipc.{Words}

abbrev pub console_endpoint : ℕ
console_endpoint = 1

abbrev pub console_write : ℕ
console_write = 1

abbrev pub console_read : ℕ
console_read = 2

abbrev pub write_words : ℕ → Words
write_words byte = record { w0 = console_write; w1 = byte; w2 = 0; w3 = 0 }

abbrev pub read_words : Words
read_words = record { w0 = console_read; w1 = 0; w2 = 0; w3 = 0 }

module _ {S : Type 0} (call : ℕ → Words → M S Words) where
  -- The loop of `write`: whether all calls succeeded.
  unfoldable pub write_bytes : List ℕ → S → Bool × S
  write_bytes [] s = (true, s)
  write_bytes (byte ∷ bytes) s =
      let (r, s1) = call console_endpoint (write_words byte) s in
      let rest = write_bytes bytes s1 in elim r [ none ↦ (false, s1) | some words ↦ rest ]

  unfoldable pub write : ℕ → List ℕ → S → ℕ × S
  unfolding write_bytes
  write fd buf s =
      if not (fd == 1) && not (fd == 2)
      then (usize_max, s)
      else (let (fine, s1) = write_bytes buf s in (if fine then length buf else usize_max, s1))

  -- The loop of `read` from byte `index` on, over the rest of the buffer: the result, the rest of the
  -- buffer after it, and the state.
  unfoldable pub read_bytes : List ℕ → ℕ → S → ℕ × List ℕ × S
  read_bytes [] index s = (index, [], s)
  read_bytes (slot ∷ slots) index s =
      let (r, s1) = call console_endpoint read_words s in
      let (n, rest, s2) = read_bytes slots (index + 1) s1 in
      elim r [
        | none ↦ (usize_max, slot ∷ slots, s1)
        | some reply ↦
            let byte = reply.w0 % 256 in
            if byte == b'\n' then (index + 1, byte ∷ slots, s1) else (n, byte ∷ rest, s2)
      ]

  unfoldable pub read : ℕ → List ℕ → S → ℕ × List ℕ × S
  unfolding read_bytes
  read fd buf s = if fd == 0 then read_bytes buf 0 s else (usize_max, buf, s)
