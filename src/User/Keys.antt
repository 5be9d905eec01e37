-- ===== src/User/Keys.antt =====
-- The turns of the loop of `read_line` of the shell, user/programs/shell/src/main.rs.
use nek_os.Base.{
  ℕ, suc, ◌+◌, ◌-◌, true, false, some, List, [], ◌∷◌, set, length, ltb, ◌==◌, M, ◌≡◌, refl,
}
use nek_os.Ipc.{Words}
use nek_os.User.Io.{write, read}
use nek_os.User.Shell.{is_erase, rub_out, print, read_line}

module _ {S : Type 0} (call : ℕ → Words → M S Words) (r len : ℕ) (buf : List ℕ) (s : S) where
  pub read_line-full :
      ltb (len + 1) (length buf) ≡ false → read_line call (suc r) len buf s ≡ some (len, buf, s)
  unfolding read_line
  read_line-full h = rw h refl

  module _ (c : ℕ) (h : ltb (len + 1) (length buf) ≡ true) (one : (read call 0 (0 ∷ []) s).0 ≡ 1)
      (byte : (read call 0 (0 ∷ []) s).1 ≡ c ∷ []) where
    abbrev key : S
    key = (read call 0 (0 ∷ []) s).2

    pub read_line-erase :
        is_erase c ≡ true
        → ltb 0 len ≡ true
        → read_line call (suc r) len buf s ≡ read_line call r (len - 1) buf (print call rub_out key)
    unfolding read_line
    read_line-erase e l = rw (h, one, byte, e, l) refl

    pub read_line-nothing :
        is_erase c ≡ true
        → ltb 0 len ≡ false
        → read_line call (suc r) len buf s ≡ read_line call r len buf key
    unfolding read_line
    read_line-nothing e l = rw (h, one, byte, e, l) refl

    pub read_line-end :
        is_erase c ≡ false
        → (write call 1 (c ∷ []) key).0 ≡ 1
        → (c == b'\n') ≡ true
        → read_line call (suc r) len buf s ≡ some (len, buf, (write call 1 (c ∷ []) key).1)
    unfolding read_line
    read_line-end e w l = rw (h, one, byte, e, w, l) refl

    pub read_line-more :
        is_erase c ≡ false
        → (write call 1 (c ∷ []) key).0 ≡ 1
        → (c == b'\n') ≡ false
        → read_line call (suc r) len buf s
          ≡ read_line call r (len + 1) (set buf len c) (write call 1 (c ∷ []) key).1
    unfolding read_line
    read_line-more e w l = rw (h, one, byte, e, w, l) refl
