-- ===== src/Task/Settled/Messages.antt =====
-- `ipc_call` and `ipc_recv` of src/kernel/task.rs keep the invariant of every trap.
use nek_os.Base.{
  ℕ, ◌||◌, none, some, ◌==◌, opt_eq, subst, ◌≡◌, refl, sym, ap, ◌∙◌, ◌≢◌, inl, inr, Bool-cases,
  Option-cases, ==_iff,
}
use nek_os.Ipc.{Words, Endpoint, is_full, pop}
use nek_os.Task.{Task, Kernel, ipc_call, ipc_recv, position, task_at, idle_pid, has_pid}
use nek_os.Task.Sched.{sleep_at}
use nek_os.Task.Message.{
  send, receive, hand_on, deliver, enqueue, endpoint_at, wait_for_message, set_endpoint,
}
use nek_os.Task.Keep.{same-IsSound}
use nek_os.Task.Leave.{current_index-found}
use nek_os.Task.Quiet.{IsReceiving}
use nek_os.Task.Settled.{IsSteady, IsSettled, schedule-IsSettled, EndsSettled}
use nek_os.Task.Settled.Endpoints.{
  Receiver-found, woken-IsSteady, endpoint-IsSteady, endpoint-IsSettled, is_waiting,
  asleep-IsSteady, receiver-IsSteady,
}

deliver-IsSteady :
    (r e : ℕ) (ep : Endpoint) (sender : ℕ) (words : Words) (u : Task) (k : Kernel)
    → task_at r k.tasks ≡ some u
    → IsReceiving e u
    → IsSteady k
    → IsSteady (deliver r e ep sender words k)
unfolding deliver
deliver-IsSteady r e ep sender words u k p receiving v =
    rw (p, deliver)
      (woken-IsSteady e (record ep { waiting_receiver = none }) r u k _ p receiving refl refl refl
        refl refl refl v)

hand_on-IsSettled :
    (e : ℕ) (ep : Endpoint) (sender : ℕ) (words : Words) (tf : ℕ) (k : Kernel)
    → IsSteady k
    → endpoint_at e k.endpoints ≡ some ep
    → EndsSettled (hand_on e ep sender words tf k)
unfolding hand_on
hand_on-IsSettled e ep sender words tf k v p =
    elim (Bool-cases (opt_eq ep.waiting_receiver (some ep.owner))) [
      | inr h ↦
          rw (h, hand_on)
            (
              schedule-IsSettled tf (enqueue e ep sender words k) (
                  unfold enqueue in
                  endpoint-IsSteady e ep _ k _ p refl refl refl refl refl refl refl v),
              λ x. cc,
            )
      | inl h ↦
          let (r, u, q, b, receiving) =
            Receiver-found e ep k v.consistent
              (v.orderly.waiting e ep p (is_waiting ep.waiting_receiver ep.owner h)) in
          rw (h, hand_on, q)
            (
              schedule-IsSettled tf (deliver r e ep sender words k)
                  (deliver-IsSteady r e ep sender words u k b receiving v),
              λ x. cc,
            )
    ]

pub send-IsSettled :
    (e : ℕ) (words : Words) (tf : ℕ) (k : Kernel)
    → k.current_pid ≢ some idle_pid
    → IsSettled k
    → EndsSettled (send e words tf k)
unfolding send
send-IsSettled e words tf k busy v = elim (Option-cases k.current_pid) [
  | inl c ↦ rw (c, send) (v, λ x. cc)
  | inr (sender, c) ↦ elim (Option-cases (endpoint_at e k.endpoints)) [
    | inl p ↦ rw (c, send, p) (v, λ x. cc)
    | inr (ep, p) ↦ elim (Bool-cases (sender == ep.owner || is_full ep.pending)) [
      | inl h ↦ rw (c, send, p, h) (v, λ x. cc)
      | inr h ↦ elim (Option-cases (position (has_pid sender) k.tasks)) [
        | inl q ↦ rw (c, send, p, h, q) (v, λ x. cc)
        | inr (i, q) ↦
            let (s, a) = asleep-IsSteady e i tf (ipc_call e) ep sender k busy c q p v in
            rw (c, send, p, h, q)
              (hand_on-IsSettled e ep sender words tf (sleep_at i (ipc_call e) tf k) s a)
      ]
    ]
  ]
]

wait_for_message-IsSettled :
    (e : ℕ) (ep : Endpoint) (tf : ℕ) (k : Kernel)
    → k.current_pid ≢ some idle_pid
    → k.current_pid ≡ some ep.owner
    → IsSettled k
    → EndsSettled (wait_for_message e ep ep.owner tf k)
unfolding wait_for_message
wait_for_message-IsSettled e ep tf k busy mine v =
    let ep' : Endpoint = record ep { waiting_receiver = some ep.owner } in
    let k1 : Kernel = set_endpoint e ep' k in
    let (i, q) = current_index-found k1 (same-IsSound k k1 refl refl refl v.sound) in
    rw (q, wait_for_message)
      (
        schedule-IsSettled tf (sleep_at i (ipc_recv e) tf k1)
            (receiver-IsSteady e i tf ep' k k1 busy mine q refl refl refl refl refl v),
        λ x. cc,
      )

pub receive-IsSettled :
    (e tf : ℕ) (k : Kernel)
    → k.current_pid ≢ some idle_pid
    → IsSettled k
    → EndsSettled (receive e tf k)
unfolding receive
receive-IsSettled e tf k busy v = elim (Option-cases k.current_pid) [
  | inl c ↦ rw (c, receive) (v, λ x. cc)
  | inr (r, c) ↦ elim (Option-cases (endpoint_at e k.endpoints)) [
    | inl p ↦ rw (c, receive, p) (v, λ x. cc)
    | inr (ep, p) ↦ elim (Bool-cases (r == ep.owner)) [
      | inr h ↦ rw (c, receive, p, h) (v, λ x. cc)
      | inl h ↦
          let own : r ≡ ep.owner = (==_iff r ep.owner).0 h in
          elim (Option-cases (pop ep.pending).0) [
            | inr (m, q) ↦
                rw (c, receive, p, h, q)
                  (
                    endpoint-IsSettled e ep (record ep { pending = (pop ep.pending).1 }) k _ p refl
                        refl refl refl refl refl refl v,
                    λ x. cc,
                  )
            | inl q ↦
                rw (c, receive, p, h, q)
                  (subst (λ (x : ℕ). EndsSettled (wait_for_message e ep x tf k)) (sym own)
                    (wait_for_message-IsSettled e ep tf k busy (c ∙ ap some own) v))
          ]
    ]
  ]
]
