-- ===== src/User/Rpc.antt =====
-- Calls of the user library, user/userlib/src/ipc.rs and syscall.rs, through the kernel: what one task
-- sends in its registers another one finds in its own.
use nek_os.Base.{ℕ, ◌%◌, ◌^◌, Bool, List, ◌≡◌, refl, ap, ◌∙◌}
use nek_os.Base.Words.{add_usize}
use nek_os.Trap.{TrapFrame}
use nek_os.Ipc.{Words}
use nek_os.Initrd.{Entry}
use nek_os.Task.{Kernel, write_frame, sign_extend}
use nek_os.Task.Exit.{exit_current}
use nek_os.Task.Message.{send, reply}
use nek_os.Syscall.{
  Outcome, return_to, set_a0, zero_or_max, finish_ipc, finish_exit, words_of, dispatch, handle,
}
use nek_os.User.Ipc.{call_registers, reply_registers}
use nek_os.User.Calls.{exit_registers}

-- The state in which `handle` starts: `sepc` has moved on.
abbrev pub entered : ℕ → Kernel → Kernel
entered tf k = record k {
  frames = write_frame k.frames tf (record (k.frames tf) { sepc = add_usize (k.frames tf).sepc 4 });
}

abbrev answer_of : ℕ → ℕ → Words → Kernel → Outcome × Kernel
answer_of tf client words k =
    let r = reply (client % 2 ^ 32) words k in (return_to tf, set_a0 tf (zero_or_max r.0) r.1)

module _ (is_utf8 : List ℕ → Bool) (files : List Entry) where
  handle-number :
      (n tf : ℕ) (k : Kernel)
      → (k.frames tf).a7 ≡ n
      → handle is_utf8 files tf k
        ≡ dispatch is_utf8 files n
            (record (k.frames tf) { sepc = add_usize (k.frames tf).sepc 4 })
            tf
            (entered tf k)
  unfolding handle
  handle-number n tf k h =
      ap
        (λ x.
          dispatch is_utf8 files x (record (k.frames tf) { sepc = add_usize (k.frames tf).sepc 4 })
            tf (entered tf k))
        h

  dispatch-call :
      (f : TrapFrame) (tf : ℕ) (k : Kernel)
      → dispatch is_utf8 files 10 f tf k ≡ finish_ipc tf (send f.a0 (words_of f) tf k)
  unfolding dispatch
  dispatch-call f tf k = refl

  dispatch-reply :
      (f : TrapFrame) (tf : ℕ) (k : Kernel)
      → dispatch is_utf8 files 12 f tf k ≡ (
          let r = reply (f.a0 % 2 ^ 32) (words_of f) k in
          (return_to tf, set_a0 tf (zero_or_max r.0) r.1))
  unfolding dispatch
  dispatch-reply f tf k = refl

  dispatch-exit :
      (f : TrapFrame) (tf : ℕ) (k : Kernel)
      → dispatch is_utf8 files 2 f tf k ≡ finish_exit (exit_current (f.a0 % 2 ^ 32) k)
  unfolding dispatch
  dispatch-exit f tf k = refl

  pub handle-call :
      (e : ℕ) (words : Words) (f0 : TrapFrame) (tf : ℕ) (k : Kernel)
      → k.frames tf ≡ call_registers e words f0
      → handle is_utf8 files tf k ≡ finish_ipc tf (send e words tf (entered tf k))
  unfolding call_registers
  handle-call e words f0 tf k q =
      handle-number 10 tf k (ap (λ (g : TrapFrame). g.a7) q)
      ∙ dispatch-call _ tf (entered tf k)
      ∙ ap (λ (g : TrapFrame). finish_ipc tf (send g.a0 (words_of g) tf (entered tf k))) q

  pub handle-reply :
      (client : ℕ) (words : Words) (f0 : TrapFrame) (tf : ℕ) (k : Kernel)
      → k.frames tf ≡ reply_registers client words f0
      → handle is_utf8 files tf k ≡ (
          let r = reply (client % 2 ^ 32) words (entered tf k) in
          (return_to tf, set_a0 tf (zero_or_max r.0) r.1))
  unfolding reply_registers
  handle-reply client words f0 tf k q =
      handle-number 12 tf k (ap (λ (g : TrapFrame). g.a7) q)
      ∙ dispatch-reply _ tf (entered tf k)
      ∙ ap (λ (g : TrapFrame). answer_of tf g.a0 (words_of g) (entered tf k)) q

  pub handle-exit :
      (code : ℕ) (f0 : TrapFrame) (tf : ℕ) (k : Kernel)
      → k.frames tf ≡ exit_registers code f0
      → handle is_utf8 files tf k
        ≡ finish_exit (exit_current (sign_extend code % 2 ^ 32) (entered tf k))
  unfolding exit_registers
  handle-exit code f0 tf k q =
      handle-number 2 tf k (ap (λ (g : TrapFrame). g.a7) q)
      ∙ dispatch-exit _ tf (entered tf k)
      ∙ ap (λ (g : TrapFrame). finish_exit (exit_current (g.a0 % 2 ^ 32) (entered tf k))) q
