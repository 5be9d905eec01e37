-- ===== src/Task/Settled/Endpoints.antt =====
-- What changes of an endpoint of src/kernel/task.rs and of the task that receives there keep.
use nek_os.Base.{
  ℕ, true, Option, none, some, opt_eq, and_then, set, ◌≡◌, refl, sym, ap, ◌∙◌, ◌≢◌, inl, inr,
  Option-cases, ==_iff,
}
use nek_os.Ipc.{Endpoint}
use nek_os.Task.{
  Task, Kernel, WaitChannel, ipc_recv, sleeping, running, position, task_at, update_at, idle_pid,
  has_pid, current_index, one_more,
}
use nek_os.Task.Sched.{sleep_at}
use nek_os.Task.Exit.{awaken}
use nek_os.Task.Message.{endpoint_at}
use nek_os.Task.Runnable.{IsConsistent, IsSound}
use nek_os.Task.Keep.{awaken-IsConsistent, same-IsSound, current_task, sleep_at-IsConsistent}
use nek_os.Task.Everyone.{same-IsConsistent}
use nek_os.Task.Slots.{SamePids-update_at, found_by_pid, at_self}
use nek_os.Task.Quiet.{IsReceiving, SleepOn-update_at, SamePids-refl, SleepOn-refl, not_receiving}
use nek_os.Task.Settled.{
  Receiver, IsSteady, IsSettled, endpoint-IsOrderly, sleep_at-IsSteady, settled-IsSteady,
}

-- The slot where the receiver is found by its pid.
pub Receiver-found :
    (e : ℕ) (ep : Endpoint) (k : Kernel)
    → IsConsistent k
    → Receiver e ep k
    → (r : ℕ) × (u : Task) × (position (has_pid ep.owner) k.tasks ≡ some r)
      × (task_at r k.tasks ≡ some u)
      × IsReceiving e u
Receiver-found e ep k v (j, t, p, z, r) =
    (j, t, found_by_pid k.tasks k.tasks j ep.owner t v.table (SamePids-refl k.tasks) p z, p, r)

other_channel :
    (e d r : ℕ) (k : Kernel) (u t : Task)
    → task_at r k.tasks ≡ some u
    → IsReceiving e u
    → some e ≢ some d
    → task_at r k.tasks ≡ some t
    → IsReceiving d t
    → ⊥
other_channel e d r k u t p (s, w) n q (s', w') =
    let ut : u ≡ t = cc in n (cc (sym w ∙ ap (λ (x : Task). x.waiting_for) ut ∙ w'))

-- The receiver of endpoint `e` wakes, and the endpoint says so.
pub woken-IsSteady :
    (e : ℕ) (ep : Endpoint) (r : ℕ) (u : Task) (k k' : Kernel)
    → task_at r k.tasks ≡ some u
    → IsReceiving e u
    → ep.waiting_receiver ≡ none
    → k'.tasks ≡ update_at r awaken k.tasks
    → k'.current_pid ≡ k.current_pid
    → k'.runnable_count ≡ one_more k.runnable_count
    → k'.endpoints ≡ set k.endpoints e (some ep)
    → k'.next_pid ≡ k.next_pid
    → IsSteady k
    → IsSteady k'
woken-IsSteady e ep r u k k' p receiving gone a b c d x v = record {
  consistent = awaken-IsConsistent k k' r u v.consistent p receiving.0 a b c;
  orderly =
      endpoint-IsOrderly e ep k k'
        (rw a (SamePids-update_at r awaken k.tasks k.tasks (λ y. refl) (SamePids-refl k.tasks)))
        (rw a (
          SleepOn-update_at (some e) r awaken k.tasks (λ y. refl)
            (λ y t n q s. absurd (other_channel e y r k u t p receiving n q s))))
        d x (λ w. cc) v.orderly;
}

-- Endpoint `e` changes, but not in whether its receiver waits.
pub endpoint-IsSteady :
    (e : ℕ) (ep ep' : Endpoint) (k k' : Kernel)
    → endpoint_at e k.endpoints ≡ some ep
    → ep'.waiting_receiver ≡ ep.waiting_receiver
    → ep'.owner ≡ ep.owner
    → k'.tasks ≡ k.tasks
    → k'.current_pid ≡ k.current_pid
    → k'.runnable_count ≡ k.runnable_count
    → k'.endpoints ≡ set k.endpoints e (some ep')
    → k'.next_pid ≡ k.next_pid
    → IsSteady k
    → IsSteady k'
endpoint-IsSteady e ep ep' k k' p w o a b c d x v = record {
  consistent = same-IsConsistent k k' a b c v.consistent;
  orderly =
      endpoint-IsOrderly e ep' k k' (rw a (SamePids-refl k.tasks))
        (rw a (SleepOn-refl (some e) k.tasks)) d x
        (λ z.
          (let (j, t, q, y, s) = v.orderly.waiting e ep p (sym w ∙ z ∙ ap some o) in
            (j, t, rw a q, y ∙ sym o, s)))
        v.orderly;
}

pub endpoint-IsSettled :
    (e : ℕ) (ep ep' : Endpoint) (k k' : Kernel)
    → endpoint_at e k.endpoints ≡ some ep
    → ep'.waiting_receiver ≡ ep.waiting_receiver
    → ep'.owner ≡ ep.owner
    → k'.tasks ≡ k.tasks
    → k'.current_pid ≡ k.current_pid
    → k'.runnable_count ≡ k.runnable_count
    → k'.endpoints ≡ set k.endpoints e (some ep')
    → k'.next_pid ≡ k.next_pid
    → IsSettled k
    → IsSettled k'
endpoint-IsSettled e ep ep' k k' p w o a b c d x v = record {
  sound = same-IsSound k k' a b c v.sound;
  orderly = (endpoint-IsSteady e ep ep' k k' p w o a b c d x (settled-IsSteady k v)).orderly;
}

pub is_waiting : (o : Option ℕ) (a : ℕ) → opt_eq o (some a) ≡ true → o ≡ some a
is_waiting none a h = cc
is_waiting (some b) a h = ap some ((==_iff b a).0 h)

sleep_at-endpoints :
    (i tf : ℕ) (c : WaitChannel) (k : Kernel) → (sleep_at i c tf k).endpoints ≡ k.endpoints
unfolding sleep_at
sleep_at-endpoints i tf c k = elim (Option-cases (task_at i k.tasks)) [
  | inl q ↦ rw (q, sleep_at) refl
  | inr (t, q) ↦ rw (q, sleep_at) refl
]

-- The sender sleeps, and its endpoint is as before.
pub asleep-IsSteady :
    (e i tf : ℕ) (c : WaitChannel) (ep : Endpoint) (pid : ℕ) (k : Kernel)
    → k.current_pid ≢ some idle_pid
    → k.current_pid ≡ some pid
    → position (has_pid pid) k.tasks ≡ some i
    → endpoint_at e k.endpoints ≡ some ep
    → IsSettled k
    → IsSteady (sleep_at i c tf k) × (endpoint_at e (sleep_at i c tf k).endpoints ≡ some ep)
asleep-IsSteady e i tf c ep pid k busy d q p v = (
  sleep_at-IsSteady k i tf c v busy
      (ap (λ (o : Option ℕ). and_then o (λ x. position (has_pid x) k.tasks)) d ∙ q),
  ap (endpoint_at e) (sleep_at-endpoints i tf c k) ∙ p,
)

-- The current task goes to sleep in `ipc_recv` at an endpoint of its own, which says so.
pub receiver-IsSteady :
    (e i tf : ℕ) (ep : Endpoint) (k k1 : Kernel)
    → k.current_pid ≢ some idle_pid
    → k.current_pid ≡ some ep.owner
    → current_index k1 ≡ some i
    → k1.tasks ≡ k.tasks
    → k1.current_pid ≡ k.current_pid
    → k1.runnable_count ≡ k.runnable_count
    → k1.endpoints ≡ set k.endpoints e (some ep)
    → k1.next_pid ≡ k.next_pid
    → IsSettled k
    → IsSteady (sleep_at i (ipc_recv e) tf k1)
unfolding sleep_at
receiver-IsSteady e i tf ep k k1 busy mine q a b c d x v =
    let v1 : IsSound k1 = same-IsSound k k1 a b c v.sound in
    let (t, p, cur, run) = current_task k1 i v1 q in
    let p0 : task_at i k.tasks ≡ some t = ap (task_at i) (sym a) ∙ p in
    let owned : t.pid ≡ ep.owner = cc (sym cur ∙ b ∙ mine) in
    let asleep : Task → Task =
      λ u. record u { state = sleeping; waiting_for = some (ipc_recv e) } in
    let table = ap (update_at i asleep) a in
    record {
      consistent = sleep_at-IsConsistent k1 i tf (ipc_recv e) v1 (λ z. busy (sym b ∙ z)) q;
      orderly =
          rw (p, sleep_at)
            (endpoint-IsOrderly e ep k _
              (rw table
                (SamePids-update_at i asleep k.tasks k.tasks (λ y. refl) (SamePids-refl k.tasks)))
              (rw table (
                SleepOn-update_at (some e) i asleep k.tasks (λ y. refl)
                  (λ y u n s r. absurd (not_receiving i y k.tasks t u p0 (awake t run) s r))))
              d x (λ w. (i, asleep t, at_self i asleep k1.tasks t p, owned, (refl, refl)))
              v.orderly);
    }
  where
    awake : (t : Task) → t.state ≡ running → t.state ≢ sleeping
    awake t r s = cc
