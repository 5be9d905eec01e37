-- ===== src/User/Shell.antt =====
-- The line editor of the shell, user/programs/shell/src/main.rs, and `print!` of
-- user/userlib/src/print.rs for a text without arguments.
use nek_os.Base.{
  ℕ, zero, suc, ◌+◌, ◌-◌, Bool, ◌||◌, Option, none, some, List, [], ◌∷◌, get_or, set, length, ltb,
  ◌==◌, if◌then◌else◌, M,
}
use nek_os.Ipc.{Words}
use nek_os.User.Io.{write, read}

-- `byte == 0x7f || byte == 8`
abbrev pub is_erase : ℕ → Bool
is_erase byte = byte == 0x7f || byte == 8

-- `"\x08 \x08"`
abbrev pub rub_out : List ℕ
rub_out = 8 ∷ b' ' ∷ 8 ∷ []

module _ {S : Type 0} (call : ℕ → Words → M S Words) where
  -- `print!` of a text: what `write` returns is dropped.
  unfoldable pub print : List ℕ → S → S
  unfolding write
  print text s = (write call 1 text s).1

  -- The loop of `read_line` with `len` bytes in the buffer, for at most `rounds` bytes read: the length,
  -- the buffer and the state; `none` where it goes on then.
  unfoldable pub read_line : ℕ → ℕ → List ℕ → S → Option (ℕ × List ℕ × S)
  unfolding print read
  read_line zero len buf s = none
  read_line (suc rounds) len buf s =
      let (n, input, s1) = read call 0 (0 ∷ []) s in
      let byte = get_or input 0 0 in
      let (m, s2) = write call 1 (byte ∷ []) s1 in
      let stay = read_line rounds len buf s1 in
      let back = read_line rounds (len - 1) buf (print rub_out s1) in
      let on = read_line rounds (len + 1) (set buf len byte) s2 in
      if ltb (len + 1) (length buf)
      then (if n == 1
          then (if is_erase byte
              then (if ltb 0 len then back else stay)
              else (if m == 1
                  then (if byte == b'\n' then some (len, buf, s2) else on)
                  else some (len, buf, s2)))
          else some (len, buf, s1))
      else some (len, buf, s)
