-- ===== src/User/Answers.antt =====
-- The words of `ipc::reply` reach `ipc::call`, user/userlib/src/ipc.rs, and the code of `exit` reaches
-- `waitpid`, user/userlib/src/syscall.rs.
use nek_os.Base.{
  ℕ, ◌%◌, ◌^◌, ◌<◌, Bool, false, Option, none, some, List, ◌==◌, opt_eq, if◌then◌else◌, ◌≡◌, refl,
  sym, ap, ◌∙◌, ◌≢◌, inl, inr, arith, subst,
}
use nek_os.Base.Words.{usize_max}
use nek_os.Trap.{TrapFrame}
use nek_os.Ipc.{Words}
use nek_os.Initrd.{Entry}
use nek_os.Task.{Task, Table, Kernel, task_at, idle_pid, sign_extend}
use nek_os.Task.Exit.{awaken, leave, run_first, exit_current}
use nek_os.Task.Message.{reply}
use nek_os.Task.Runnable.{IsSound}
use nek_os.Task.Keep.{same-IsSound}
use nek_os.Task.Messages.{MayAnswer, reply_lem, answered, write_frame-same, write_frame-other}
use nek_os.Task.Wake.{Waits, leave-Told}
use nek_os.Task.Leave.{idle_hart, exit_current-IsSound}
use nek_os.Task.Awake.{Woken, run_first-Woken}
use nek_os.Task.Frames.{run_first-frames}
use nek_os.Syscall.{Outcome, return_to, set_a0, zero_or_max, finish_exit, handle}
use nek_os.User.Ipc.{call_result, reply_registers, reply_result}
use nek_os.User.Calls.{exit_registers, waitpid_result}
use nek_os.User.Rpc.{entered, handle-reply, handle-exit}

-- The same answer in a state with the same tasks and endpoints.
same-MayAnswer :
    (client tf : ℕ) (k : Kernel) (i : ℕ) (t : Task)
    → MayAnswer client k i t
    → MayAnswer client (entered tf k) i t
same-MayAnswer client tf k i t m = record {
  slot = m.slot;
  task = m.task;
  asleep = m.asleep;
  endpoint = m.endpoint;
  at = m.at;
  waits = m.waits;
  known = m.known;
  owner = m.owner;
}

call-read :
    (words : Words) (f : TrapFrame)
    → call_result (answered words f) ≡ (if words.w0 == usize_max then none else some words)
unfolding call_result
call-read words f = refl

-- What a reply leaves in the two frames.
given :
    (client : ℕ) (words : Words) (tf : ℕ) (k : Kernel) (i : ℕ) (t : Task)
    → MayAnswer client k i t
    → t.trap_frame ≢ tf
    → let r = reply client words k in
      let k' = set_a0 tf (zero_or_max r.0) r.1 in
      (reply_result (k'.frames tf) ≡ some tt)
      × (call_result (k'.frames t.trap_frame)
          ≡ (if words.w0 == usize_max then none else some words))
      × (task_at i k'.tasks ≡ some (awaken t))
unfolding reply_result
given client words tf k i t m apart = elim (reply_lem client words k) [
  | inr (never, same) ↦ absurd (never i t m)
  | inl (j, u, n, fine, done) ↦
      let ij : j ≡ i = cc (sym n.slot ∙ m.slot) in
      let at_j : task_at j k.tasks ≡ some t = ap (λ (x : ℕ). task_at x k.tasks) ij ∙ m.task in
      let ut : u ≡ t = cc (sym n.task ∙ at_j) in
      let k1 = (reply client words k).1 in
      let value = zero_or_max (reply client words k).0 in
      let there : k1.frames t.trap_frame ≡ answered words (k.frames t.trap_frame) =
        subst (λ (x : Task). k1.frames x.trap_frame ≡ answered words (k.frames x.trap_frame)) ut
          done.words_given in
      let wrote = record (k1.frames tf) { a0 = value } in
      (
        ap reply_result (write_frame-same k1.frames tf wrote) ∙ rw fine refl,
        ap call_result
              (write_frame-other k1.frames tf t.trap_frame wrote (λ q. apart (sym q)) ∙ there)
            ∙ call-read words (k.frames t.trap_frame),
        subst (λ (x : ℕ). task_at x k1.tasks ≡ some (awaken t)) ij
            (done.woken ∙ ap (λ (x : Task). some (awaken x)) ut),
      )
]

code_kept : (code : ℕ) → code < 2 ^ 32 → sign_extend code % 2 ^ 32 ≡ code
code_kept code small = ground arith

exits :
    (code : ℕ) (k : Kernel)
    → opt_eq k.current_pid (some idle_pid) ≡ false
    → exit_current code k ≡ run_first (idle_hart (leave code k))
unfolding exit_current
exits code k h = rw (h, exit_current) refl

finish_exit-kept :
    (r : Option ℕ × Kernel)
    → ((finish_exit r).1.frames ≡ r.1.frames) × ((finish_exit r).1.tasks ≡ r.1.tasks)
finish_exit-kept (some next, k) = (refl, refl)
finish_exit-kept (none, k) = (refl, refl)

finish_exit-returns :
    (r : Option ℕ × Kernel) (next : ℕ) → r.0 ≡ some next → (finish_exit r).0 ≡ return_to next
finish_exit-returns (some x, k) next e = ap return_to (some_inj e)
  where
    some_inj : {a b : ℕ} → some a ≡ some b → a ≡ b
    some_inj h = cc
finish_exit-returns (none, k) next e = cc

module _ (is_utf8 : List ℕ → Bool) (files : List Entry) where
  -- An ipc::reply to a client that waits in ipc::call at an endpoint of the caller returns Ok, wakes the
  -- client, and ipc::call returns the four words to it; but where the first of them is usize::MAX the
  -- client gets an error instead.
  pub reply-call :
      (client : ℕ) (words : Words) (f0 : TrapFrame) (tf : ℕ) (k : Kernel) (i : ℕ) (t : Task)
      → k.frames tf ≡ reply_registers client words f0
      → client < 2 ^ 32
      → MayAnswer client k i t
      → t.trap_frame ≢ tf
      → let r = handle is_utf8 files tf k in
        (r.0 ≡ return_to tf)
        × (reply_result (r.1.frames tf) ≡ some tt)
        × (call_result (r.1.frames t.trap_frame)
            ≡ (if words.w0 == usize_max then none else some words))
        × (task_at i r.1.tasks ≡ some (awaken t))
  reply-call client words f0 tf k i t q small m apart =
      let k1 = entered tf k in
      let same : client % 2 ^ 32 ≡ client = omega arith in
      let ends =
        handle-reply is_utf8 files client words f0 tf k q
        ∙ ap
            (λ (x : ℕ). let r = reply x words k1 in (return_to tf, set_a0 tf (zero_or_max r.0) r.1))
            same in
      let (fine, read, woken) =
        given client words tf k1 i t (same-MayAnswer client tf k i t m) apart in
      (
        ap (λ (r : Outcome × Kernel). r.0) ends,
        ap (λ (r : Outcome × Kernel). reply_result (r.1.frames tf)) ends ∙ fine,
        ap (λ (r : Outcome × Kernel). call_result (r.1.frames t.trap_frame)) ends ∙ read,
        ap (λ (r : Outcome × Kernel). task_at i r.1.tasks) ends ∙ woken,
      )

  -- Where the parent of a task sleeps in waitpid for it, an exit of the task with any code ends in a
  -- frame to return to. The parent is then awake in its slot, ready or running, and waits for nothing,
  -- and its waitpid returns the exit code as an isize.
  pub exit-waitpid :
      (code : ℕ) (f0 : TrapFrame) (tf : ℕ) (k : Kernel) (i : ℕ) (t : Task) (j : ℕ) (p : Task)
      → k.frames tf ≡ exit_registers code f0
      → code < 2 ^ 32
      → IsSound k
      → t.pid ≢ idle_pid
      → Waits k i t j p
      → (next : ℕ) × ((handle is_utf8 files tf k).0 ≡ return_to next)
        × (waitpid_result ((handle is_utf8 files tf k).1.frames p.trap_frame) ≡ sign_extend code)
        × Woken (handle is_utf8 files tf k).1.tasks j p
  unfolding waitpid_result
  exit-waitpid code f0 tf k i t j p q small v busy w =
      let k1 = entered tf k in
      let v1 = same-IsSound k k1 refl refl refl v in
      let told = leave-Told code k1 i t j p v1 (record {
        exiting = w.exiting;
        is_current = w.is_current;
        parent = w.parent;
        waiting = w.waiting;
        asleep = w.asleep;
        channel = w.channel;
      }) in
      let (next, leaves) = (exit_current-IsSound code k1 v1).1 in
      let kernel_code =
        handle-exit is_utf8 files code f0 tf k q
        ∙ ap (λ (x : ℕ). finish_exit (exit_current x k1)) (code_kept code small) in
      let ends = kernel_code ∙ ap finish_exit (exits code k1 (not_idle w.is_current)) in
      let gone = run_first (idle_hart (leave code k1)) in
      let (frames, tasks) = finish_exit-kept gone in
      let kept = frames ∙ run_first-frames (idle_hart (leave code k1)) in
      (
        next,
        ap (λ (r : Outcome × Kernel). r.0) kernel_code
            ∙ finish_exit-returns (exit_current code k1) next leaves,
        ap (λ (r : Outcome × Kernel). (r.1.frames p.trap_frame).a0) ends
            ∙ ap (λ (m : ℕ → TrapFrame). (m p.trap_frame).a0) kept
            ∙ told.result,
        subst (λ (r : Outcome × Kernel). Woken r.1.tasks j p) (sym ends)
            (subst (λ (ts : Table). Woken ts j p) (sym tasks)
              (run_first-Woken (idle_hart (leave code k1)) j p (record {
                now = told.parent_after;
                there = told.there;
                same_pid = told.same_pid;
                same_frame = told.same_frame;
                awake = inl told.woken;
                waits_no_more = told.waits_no_more;
              }))),
      )
    where
      not_idle : k.current_pid ≡ some t.pid → opt_eq k.current_pid (some idle_pid) ≡ false
      not_idle c = ground (arith, busy)
