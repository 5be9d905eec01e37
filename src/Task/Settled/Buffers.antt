-- ===== src/Task/Settled/Buffers.antt =====
-- `ipc_call_buf` and `ipc_recv_buf` of src/kernel/task.rs keep the invariant of every trap.
use nek_os.Base.{
  ℕ, Bool, true, ◌||◌, ◌&&◌, not, ltb, Option, none, some, ◌==◌, opt_eq, and_then, set, subst, ◌≡◌,
  refl, sym, ap, ◌∙◌, ◌≢◌, inl, inr, Bool-cases, Option-cases, ==_iff,
}
use nek_os.Task.Buffer.{
  send_buf, receive_buf, send_staged, hand_on_buf, deliver_buf, enqueue_buf, stage, take_buf,
  wait_with_buf,
}
use nek_os.Base.{List, [], ◌∷◌, zero, suc}
use nek_os.Ipc.{ipc_buf_size, Message, Words, Endpoint, is_full, pop}
use nek_os.Task.{
  Task, Kernel, ipc_call, ipc_recv, position, task_at, idle_pid, has_pid, current_index,
}
use nek_os.Task.Sched.{sleep_at}
use nek_os.Task.Message.{endpoint_at, set_endpoint}
use nek_os.Task.Keep.{same-IsSound}
use nek_os.Task.Leave.{current_index-found}
use nek_os.Task.Quiet.{IsReceiving}
use nek_os.Task.Settled.{IsSteady, IsSettled, schedule-IsSettled, EndsSettled}
use nek_os.Task.Settled.Endpoints.{
  Receiver-found, woken-IsSteady, endpoint-IsSteady, endpoint-IsSettled, is_waiting,
  asleep-IsSteady, receiver-IsSteady,
}

deliver_buf-IsSteady :
    (r e : ℕ) (ep : Endpoint) (sender : ℕ) (words : Words) (buf_len : ℕ) (u : Task) (k : Kernel)
    → task_at r k.tasks ≡ some u
    → IsReceiving e u
    → IsSteady k
    → IsSteady (deliver_buf r e ep sender words buf_len k)
unfolding deliver_buf
deliver_buf-IsSteady r e ep sender words buf_len u k p receiving v =
    rw (p, deliver_buf)
      (woken-IsSteady e
        (record ep { waiting_receiver = none; recv_buf_addr = 0; recv_buf_capacity = 0 }) r u k _ p
        receiving refl refl refl refl refl refl v)

hand_on_buf-IsSettled :
    (e : ℕ) (ep : Endpoint) (sender : ℕ) (words : Words) (buf_len tf : ℕ) (k : Kernel)
    → IsSteady k
    → endpoint_at e k.endpoints ≡ some ep
    → EndsSettled (hand_on_buf e ep sender words buf_len tf k)
unfolding hand_on_buf
hand_on_buf-IsSettled e ep sender words buf_len tf k v p =
    elim (Bool-cases (opt_eq ep.waiting_receiver (some ep.owner))) [
      | inr h ↦
          rw (h, hand_on_buf)
            (
              schedule-IsSettled tf (enqueue_buf e ep sender words buf_len k) (
                  unfold enqueue_buf in
                  endpoint-IsSteady e ep _ k _ p refl refl refl refl refl refl refl v),
              λ x. cc,
            )
      | inl h ↦
          let (r, u, q, b, receiving) =
            Receiver-found e ep k v.consistent
              (v.orderly.waiting e ep p (is_waiting ep.waiting_receiver ep.owner h)) in
          rw (h, hand_on_buf, q)
            (
              schedule-IsSettled tf (deliver_buf r e ep sender words buf_len k)
                  (deliver_buf-IsSteady r e ep sender words buf_len u k b receiving v),
              λ x. cc,
            )
    ]

send_staged-IsSettled :
    (e sender : ℕ) (words : Words) (buf_len tf : ℕ) (ep : Endpoint) (k : Kernel)
    → k.current_pid ≢ some idle_pid
    → k.current_pid ≡ some sender
    → endpoint_at e k.endpoints ≡ some ep
    → IsSettled k
    → EndsSettled (send_staged e sender words buf_len tf k)
unfolding send_staged
send_staged-IsSettled e sender words buf_len tf ep k busy c p v =
    elim (Option-cases (position (has_pid sender) k.tasks)) [
      | inl q ↦ rw (p, send_staged, q) (v, λ x. cc)
      | inr (i, q) ↦
          let (s, a) = asleep-IsSteady e i tf (ipc_call e) ep sender k busy c q p v in
          rw (p, send_staged, q)
            (hand_on_buf-IsSettled e ep sender words buf_len tf (sleep_at i (ipc_call e) tf k) s a)
    ]

endpoint_at-set :
    (e : ℕ) (x y : Endpoint) (es : List (Option Endpoint))
    → endpoint_at e es ≡ some y
    → endpoint_at e (set es e (some x)) ≡ some x
endpoint_at-set e x y [] p = cc
endpoint_at-set zero x y (o ∷ es) p = refl
endpoint_at-set (suc e) x y (o ∷ es) p = endpoint_at-set e x y es p

-- What the first part of `ipc_call_buf` leaves.
record Staged (e : ℕ) (k : Kernel) (r : Bool × Kernel) : Type 0 where
  settled : IsSettled r.1
  pid : r.1.current_pid ≡ k.current_pid
  known : r.0 ≡ true → (ep : Endpoint) × (endpoint_at e r.1.endpoints ≡ some ep)

Staged-at :
    (e : ℕ) (ep ep' : Endpoint) (b : Bool) (k : Kernel)
    → endpoint_at e k.endpoints ≡ some ep
    → ep'.waiting_receiver ≡ ep.waiting_receiver
    → ep'.owner ≡ ep.owner
    → IsSettled k
    → Staged e k (b, set_endpoint e ep' k)
Staged-at e ep ep' b k p w o v = record {
  settled = endpoint-IsSettled e ep ep' k (set_endpoint e ep' k) p w o refl refl refl refl refl v;
  pid = refl;
  known = λ t. (ep', endpoint_at-set e ep' ep k.endpoints p);
}

stage-Staged :
    (e : ℕ) (ep : Endpoint) (user_buf buf_len : ℕ) (k : Kernel)
    → endpoint_at e k.endpoints ≡ some ep
    → IsSettled k
    → Staged e k (stage e ep user_buf buf_len k)
unfolding stage
stage-Staged e ep user_buf buf_len k p v = elim (Bool-cases (buf_len == 0)) [
  | inl h ↦ rw (h, stage) (Staged-at e ep (record ep { copy_len = 0 }) true k p refl refl v)
  | inr h ↦ elim (Option-cases (and_then (current_index k) (λ i. task_at i k.tasks))) [
    | inl q ↦ rw (h, stage, q) (record { settled = v; pid = refl; known = λ t. cc })
    | inr (t, q) ↦ rw (h, stage, q) (Staged-at e ep _ _ k p refl refl v)
  ]
]

pub send_buf-IsSettled :
    (e : ℕ) (words : Words) (user_buf buf_len tf : ℕ) (k : Kernel)
    → k.current_pid ≢ some idle_pid
    → IsSettled k
    → EndsSettled (send_buf e words user_buf buf_len tf k)
unfolding send_buf
send_buf-IsSettled e words user_buf buf_len tf k busy v = elim (Option-cases k.current_pid) [
  | inl c ↦ rw (c, send_buf) (v, λ x. cc)
  | inr (sender, c) ↦ elim (Option-cases (endpoint_at e k.endpoints)) [
    | inl p ↦ rw (c, send_buf, p) (v, λ x. cc)
    | inr (ep, p) ↦
        let s = stage-Staged e ep user_buf buf_len k p v in
        elim (Bool-cases (
          (sender == ep.owner
            || (is_full ep.pending
                || (ep.has_buffered && not (opt_eq ep.waiting_receiver (some ep.owner)))))
          || ltb ipc_buf_size buf_len)) [
            | inl h ↦ rw (c, send_buf, p, h) (v, λ x. cc)
            | inr h ↦ elim (Bool-cases (stage e ep user_buf buf_len k).0) [
              | inr f ↦ rw (c, send_buf, p, h, f) (s.settled, λ x. cc)
              | inl f ↦
                  let (x, known) = s.known f in
                  rw (c, send_buf, p, h, f)
                    (send_staged-IsSettled e sender words buf_len tf x
                      (stage e ep user_buf buf_len k).1 (λ z. busy (sym s.pid ∙ z)) (s.pid ∙ c)
                      known s.settled)
            ]
          ]
  ]
]

take_buf-IsSettled :
    (e : ℕ) (ep : Endpoint) (m : Message) (user_buf capacity tf : ℕ) (k : Kernel)
    → endpoint_at e k.endpoints ≡ some ep
    → IsSettled k
    → EndsSettled (take_buf e ep m user_buf capacity tf k)
unfolding take_buf
take_buf-IsSettled e ep m user_buf capacity tf k p v = elim (Bool-cases (m.buf_len == 0)) [
  | inl h ↦
      rw (h, take_buf)
        (endpoint-IsSettled e ep _ k _ p refl refl refl refl refl refl refl v, λ x. cc)
  | inr h ↦
      rw (h, take_buf)
        (endpoint-IsSettled e ep _ k _ p refl refl refl refl refl refl refl v, λ x. cc)
]

wait_with_buf-IsSettled :
    (e : ℕ) (ep : Endpoint) (user_buf capacity tf : ℕ) (k : Kernel)
    → k.current_pid ≢ some idle_pid
    → k.current_pid ≡ some ep.owner
    → IsSettled k
    → EndsSettled (wait_with_buf e ep ep.owner user_buf capacity tf k)
unfolding wait_with_buf
wait_with_buf-IsSettled e ep user_buf capacity tf k busy mine v =
    let ep' : Endpoint = record ep {
      waiting_receiver = some ep.owner;
      recv_buf_addr = user_buf;
      recv_buf_capacity = capacity;
    } in
    let k1 : Kernel = set_endpoint e ep' k in
    let (i, q) = current_index-found k1 (same-IsSound k k1 refl refl refl v.sound) in
    rw (q, wait_with_buf)
      (
        schedule-IsSettled tf (sleep_at i (ipc_recv e) tf k1)
            (receiver-IsSteady e i tf ep' k k1 busy mine q refl refl refl refl refl v),
        λ x. cc,
      )

pub receive_buf-IsSettled :
    (e user_buf capacity tf : ℕ) (k : Kernel)
    → k.current_pid ≢ some idle_pid
    → IsSettled k
    → EndsSettled (receive_buf e user_buf capacity tf k)
unfolding receive_buf
receive_buf-IsSettled e user_buf capacity tf k busy v = elim (Option-cases k.current_pid) [
  | inl c ↦ rw (c, receive_buf) (v, λ x. cc)
  | inr (r, c) ↦ elim (Option-cases (endpoint_at e k.endpoints)) [
    | inl p ↦ rw (c, receive_buf, p) (v, λ x. cc)
    | inr (ep, p) ↦ elim (Bool-cases (r == ep.owner)) [
      | inr h ↦ rw (c, receive_buf, p, h) (v, λ x. cc)
      | inl h ↦
          let own : r ≡ ep.owner = (==_iff r ep.owner).0 h in
          elim (Option-cases (pop ep.pending).0) [
            | inr (m, q) ↦
                rw (c, receive_buf, p, h, q) (take_buf-IsSettled e ep m user_buf capacity tf k p v)
            | inl q ↦
                rw (c, receive_buf, p, h, q)
                  (subst (λ (x : ℕ). EndsSettled (wait_with_buf e ep x user_buf capacity tf k))
                    (sym own)
                    (wait_with_buf-IsSettled e ep user_buf capacity tf k busy (c ∙ ap some own) v))
          ]
    ]
  ]
]
