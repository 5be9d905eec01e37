-- ===== src/Task/Settled/Reply.antt =====
-- `ipc_reply` and `ipc_reply_buf` of src/kernel/task.rs keep the invariant of every trap.
use nek_os.Base.{
  ℕ, Bool, true, ◌&&◌, none, some, ◌==◌, min, ◌≡◌, refl, sym, ap, ◌∙◌, inl, inr, arith, Bool-cases,
  Option-cases,
}
use nek_os.PageTable.{Phys}
use nek_os.Task.Buffer.{reply_buf, answer_buf, copy_answer}
use nek_os.Ipc.{Words, ipc_buf_size}
use nek_os.Task.{
  Task, Kernel, TaskState, sleeping, position, task_at, update_at, has_pid, is_sleeping, one_more,
}
use nek_os.Task.Exit.{awaken}
use nek_os.Task.Message.{reply, endpoint_at, calls_endpoint, owned_by}
use nek_os.Task.Keep.{awaken-IsSound, current_task}
use nek_os.Task.Leave.{current_index-found}
use nek_os.Task.Quiet.{IsReceiving, update-Quiet}
use nek_os.Task.Settled.{IsSettled, Quiet-IsSettled, EndsSettled, same-IsSettled}

calling-not_receiving :
    (t : Task) (d : ℕ) → calls_endpoint t.waiting_for ≡ some d → (e : ℕ) → IsReceiving e t → ⊥
calling-not_receiving t d c e (s, w) = cc (ap calls_endpoint (sym w) ∙ c)

-- A client that sleeps in a call wakes.
pub answered-IsSettled :
    (i d : ℕ) (t : Task) (k k' : Kernel)
    → task_at i k.tasks ≡ some t
    → t.state ≡ sleeping
    → calls_endpoint t.waiting_for ≡ some d
    → k'.tasks ≡ update_at i awaken k.tasks
    → k'.current_pid ≡ k.current_pid
    → k'.runnable_count ≡ one_more k.runnable_count
    → k'.endpoints ≡ k.endpoints
    → k'.next_pid ≡ k.next_pid
    → IsSettled k
    → IsSettled k'
answered-IsSettled i d t k k' p s c a b n x y v =
    Quiet-IsSettled k k'
      (update-Quiet k k' i awaken (λ u. refl)
        (λ e u q r.
          (let tu : u ≡ t = cc in
            absurd (
              calling-not_receiving u d (ap (λ (z : Task). calls_endpoint z.waiting_for) tu ∙ c) e
                r)))
        a x y)
      (awaken-IsSound k k' i t v.sound p s a b n) v

asleep : (b : Bool) (s : TaskState) → (b && is_sleeping s) ≡ true → s ≡ sleeping
asleep b s h = ground arith

pub reply-IsSettled :
    (client : ℕ) (words : Words) (k : Kernel) → IsSettled k → IsSettled (reply client words k).1
unfolding reply
reply-IsSettled client words k v = elim (Option-cases k.current_pid) [
  | inl e ↦ rw (e, reply) v
  | inr (replier, e) ↦ elim (Option-cases (position (has_pid client) k.tasks)) [
    | inl q ↦ rw (e, reply, q) v
    | inr (i, q) ↦ elim (Option-cases (task_at i k.tasks)) [
      | inl p ↦ rw (e, reply, q, p) v
      | inr (t, p) ↦ elim (Option-cases (calls_endpoint t.waiting_for)) [
        | inl c ↦ rw (e, reply, q, p, c) v
        | inr (d, c) ↦
            elim (Bool-cases
              (owned_by replier (endpoint_at d k.endpoints) && is_sleeping t.state)) [
                | inl h ↦
                    rw (e, reply, q, p, c, h)
                      (answered-IsSettled i d t k _ p (asleep _ t.state h) c refl refl refl refl
                        refl v)
                | inr h ↦ rw (e, reply, q, p, c, h) v
              ]
      ]
    ]
  ]
]

copies :
    (pt copy_len user_buf caller addr : ℕ) (s : Phys)
    → copy_answer (some pt) copy_len user_buf caller addr s ≡ none
    → ⊥
unfolding copy_answer
copies pt copy_len user_buf caller addr s h = elim (Bool-cases (copy_len == 0)) [
  | inl z ↦ cc (rw z at h)
  | inr z ↦ cc (rw z at h)
]

answer_buf-IsSettled :
    (i d : ℕ) (t : Task) (pt : ℕ) (words : Words) (user_buf buf_len : ℕ) (k : Kernel)
    → task_at i k.tasks ≡ some t
    → t.state ≡ sleeping
    → calls_endpoint t.waiting_for ≡ some d
    → IsSettled k
    → EndsSettled (answer_buf i t (some pt) words user_buf buf_len k)
unfolding answer_buf
answer_buf-IsSettled i d t pt words user_buf buf_len k p s c v =
    let frame = k.frames t.trap_frame in
    let copy_len = min (min buf_len frame.a6) ipc_buf_size in
    elim (Option-cases (copy_answer (some pt) copy_len user_buf t.pagetable frame.a5 k.phys)) [
      | inl a ↦ absurd (copies pt copy_len user_buf t.pagetable frame.a5 k.phys a)
      | inr (r, a) ↦ elim (Bool-cases r.0) [
        | inl f ↦
            rw (a, answer_buf, f)
              (answered-IsSettled i d t k _ p s c refl refl refl refl refl v, λ x. cc)
        | inr f ↦ rw (a, answer_buf, f) (same-IsSettled k _ refl refl refl refl refl v, λ x. cc)
      ]
    ]

pub reply_buf-IsSettled :
    (client : ℕ) (words : Words) (user_buf buf_len : ℕ) (k : Kernel)
    → IsSettled k
    → EndsSettled (reply_buf client words user_buf buf_len k)
unfolding reply_buf
reply_buf-IsSettled client words user_buf buf_len k v =
    let (j, own) = current_index-found k v.sound in
    let (r, at, _, _) = current_task k j v.sound own in
    elim (Option-cases k.current_pid) [
      | inl e ↦ rw (e, reply_buf) (v, λ x. cc)
      | inr (replier, e) ↦ elim (Option-cases (position (has_pid client) k.tasks)) [
        | inl q ↦ rw (e, reply_buf, q) (v, λ x. cc)
        | inr (i, q) ↦ elim (Option-cases (task_at i k.tasks)) [
          | inl p ↦ rw (e, reply_buf, q, p) (v, λ x. cc)
          | inr (t, p) ↦ elim (Option-cases (calls_endpoint t.waiting_for)) [
            | inl c ↦ rw (e, reply_buf, q, p, c) (v, λ x. cc)
            | inr (d, c) ↦
                elim (Bool-cases
                  (owned_by replier (endpoint_at d k.endpoints) && is_sleeping t.state)) [
                    | inl h ↦
                        rw (e, reply_buf, q, p, c, h)
                          (rw (own, at)
                            (answer_buf-IsSettled i d t r.pagetable words user_buf buf_len k p
                              (asleep _ t.state h) c v))
                    | inr h ↦ rw (e, reply_buf, q, p, c, h) (v, λ x. cc)
                  ]
          ]
        ]
      ]
    ]
