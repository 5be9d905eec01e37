-- ===== src/Task/Settled.antt =====
-- The invariant that every trap keeps, over the task manager and the endpoints of src/kernel/task.rs:
-- besides what `IsSound` says, no pid is given twice, and a receiver that an endpoint says is waiting
-- is there, asleep in `ipc_recv` at this endpoint.
use nek_os.Base.{
  ℕ, zero, suc, ◌<◌, Bool, true, false, Option, none, some, List, [], ◌∷◌, get_elem?, set, and_then,
  ◌≡◌, refl, sym, ap, ◌∙◌, ◌≢◌, inl, inr, arith, Bool-cases, Option-cases, subst,
}
use native.Mathlib.Decide.{ℕ_discrete}
use nek_os.Ipc.{Endpoint, IpcResult, panicked}
use nek_os.Task.{
  Task, Kernel, WaitChannel, ipc_recv, sleeping, task_at, update_at, current_index, idle_pid,
}
use nek_os.Task.Sched.{schedule, sleep_at}
use nek_os.Task.Exit.{awaken}
use nek_os.Task.Message.{endpoint_at}
use nek_os.Task.Runnable.{IsConsistent, IsSound}
use nek_os.Task.Sound.{schedule-IsSound}
use nek_os.Task.Keep.{same-IsSound, sleep_at-IsConsistent, awaken-IsSound}
use nek_os.Task.Everyone.{same-IsConsistent}
use nek_os.Task.Slots.{SamePids}
use nek_os.Task.Quiet.{IsReceiving, SleepOn, Quiet, same-Quiet, update-Quiet}
use nek_os.Task.Calm.{schedule-Quiet, sleep_at-Quiet}
pub mod Endpoints
pub mod Messages
pub mod Reply
pub mod Buffers
pub mod Leaving
pub mod Waking
pub mod Creation
pub mod Forking

-- The receiver that waits at endpoint `e`.
abbrev pub Receiver : ℕ → Endpoint → Kernel → Type 0
Receiver e ep k =
    (j : ℕ) × (t : Task) × (task_at j k.tasks ≡ some t) × (t.pid ≡ ep.owner) × IsReceiving e t

pub record IsOrderly (k : Kernel) : Type 0 where
  pub fresh : (i : ℕ) (t : Task) → task_at i k.tasks ≡ some t → t.pid < k.next_pid
  pub waiting :
      (e : ℕ) (ep : Endpoint)
      → endpoint_at e k.endpoints ≡ some ep
      → ep.waiting_receiver ≡ some ep.owner
      → Receiver e ep k

-- Between the steps of an operation.
pub record IsSteady (k : Kernel) : Type 0 where
  pub consistent : IsConsistent k
  pub orderly : IsOrderly k

-- Between operations.
pub record IsSettled (k : Kernel) : Type 0 where
  pub sound : IsSound k
  pub orderly : IsOrderly k

-- An exchange of messages that ends well, though it may be refused.
abbrev pub EndsSettled : IpcResult × Kernel → Type 0
EndsSettled r = IsSettled r.1 × (r.0 ≢ panicked)

pub settled-IsSteady : (k : Kernel) → IsSettled k → IsSteady k
settled-IsSteady k v = record { consistent = v.sound.consistent; orderly = v.orderly }

still_there :
    (e : ℕ) (ep : Endpoint) (but : Option ℕ) (k k' : Kernel)
    → but ≢ some e
    → SleepOn but k.tasks k'.tasks
    → Receiver e ep k
    → Receiver e ep k'
still_there e ep but k k' n f (j, t, p, z, r) =
    let (u, q, y, s) = f e j t n p r in (j, u, q, y ∙ z, s)

pub Quiet-IsOrderly : (k k' : Kernel) → Quiet k k' → IsOrderly k → IsOrderly k'
Quiet-IsOrderly k k' f v = record {
  fresh = λ i u e. let (t, p, z) = f.pids i u e in less (sym z) f.next_pid (v.fresh i t p);
  waiting = λ e ep p w.
      still_there e ep none k k' (λ x. cc) f.sleep_on
        (v.waiting e ep (ap (endpoint_at e) (sym f.endpoints) ∙ p) w);
}
  where
    less : {a b c d : ℕ} → a ≡ b → d ≡ c → b < c → a < d
    less p q l = omega arith

endpoint_at-set_self :
    (e : ℕ) (x y : Endpoint) (es : List (Option Endpoint))
    → endpoint_at e (set es e (some x)) ≡ some y
    → y ≡ x
endpoint_at-set_self e x y [] p = cc
endpoint_at-set_self zero x y (o ∷ es) p = cc
endpoint_at-set_self (suc e) x y (o ∷ es) p = endpoint_at-set_self e x y es p

endpoint_at-set_other :
    (e d : ℕ) (x : Endpoint) (es : List (Option Endpoint))
    → e ≢ d
    → endpoint_at d (set es e (some x)) ≡ endpoint_at d es
endpoint_at-set_other e d x [] n = refl
endpoint_at-set_other zero zero x (o ∷ es) n = absurd (n refl)
endpoint_at-set_other zero (suc d) x (o ∷ es) n = refl
endpoint_at-set_other (suc e) zero x (o ∷ es) n = refl
endpoint_at-set_other (suc e) (suc d) x (o ∷ es) n =
    endpoint_at-set_other e d x es (λ p. n (ap suc p))

-- Endpoint `e` changes; if it says that its receiver waits then, the receiver is there.
pub endpoint-IsOrderly :
    (e : ℕ) (ep : Endpoint) (k k' : Kernel)
    → SamePids k.tasks k'.tasks
    → SleepOn (some e) k.tasks k'.tasks
    → k'.endpoints ≡ set k.endpoints e (some ep)
    → k'.next_pid ≡ k.next_pid
    → (ep.waiting_receiver ≡ some ep.owner → Receiver e ep k')
    → IsOrderly k
    → IsOrderly k'
endpoint-IsOrderly e ep k k' pids f a b there v = record {
  fresh = λ i u p. let (t, q, z) = pids i u p in less (sym z) b (v.fresh i t q);
  waiting = λ d x p w. elim (ℕ_discrete e d) [
    | yes same ↦
        let x_is : x ≡ ep = endpoint_at-set_self e ep x k.endpoints (
          ap (λ (y : ℕ). endpoint_at y (set k.endpoints e (some ep))) same
          ∙ ap (endpoint_at d) (sym a)
          ∙ p) in
        subst (λ (y : ℕ). Receiver y x k') same
          (rw x_is (
            there (
              ap (λ (y : Endpoint). y.waiting_receiver) (sym x_is)
              ∙ w
              ∙ ap (λ (y : Endpoint). some y.owner) x_is)))
    | no ne ↦
        still_there d x (some e) k k' (λ q. ne (cc q)) f
          (v.waiting d x
            (sym (endpoint_at-set_other e d ep k.endpoints ne) ∙ ap (endpoint_at d) (sym a) ∙ p) w)
  ];
}
  where
    less : {a b c d : ℕ} → a ≡ b → d ≡ c → b < c → a < d
    less p q l = omega arith

pub schedule-IsSettled : (tf : ℕ) (k : Kernel) → IsSteady k → IsSettled (schedule tf k).1
schedule-IsSettled tf k v = record {
  sound = schedule-IsSound tf k v.consistent;
  orderly = Quiet-IsOrderly k (schedule tf k).1 (schedule-Quiet tf k v.consistent) v.orderly;
}

pub sleep_at-IsSteady :
    (k : Kernel) (i tf : ℕ) (c : WaitChannel)
    → IsSettled k
    → k.current_pid ≢ some idle_pid
    → current_index k ≡ some i
    → IsSteady (sleep_at i c tf k)
sleep_at-IsSteady k i tf c v busy e = record {
  consistent = sleep_at-IsConsistent k i tf c v.sound busy e;
  orderly = Quiet-IsOrderly k (sleep_at i c tf k) (sleep_at-Quiet k i tf c v.sound e) v.orderly;
}

-- A change of the machine alone.
pub same-IsSettled :
    (k k' : Kernel)
    → k'.tasks ≡ k.tasks
    → k'.current_pid ≡ k.current_pid
    → k'.runnable_count ≡ k.runnable_count
    → k'.endpoints ≡ k.endpoints
    → k'.next_pid ≡ k.next_pid
    → IsSettled k
    → IsSettled k'
same-IsSettled k k' a b c d e v = record {
  sound = same-IsSound k k' a b c v.sound;
  orderly = Quiet-IsOrderly k k' (same-Quiet k k' a d e) v.orderly;
}

pub same-IsSteady :
    (k k' : Kernel)
    → k'.tasks ≡ k.tasks
    → k'.current_pid ≡ k.current_pid
    → k'.runnable_count ≡ k.runnable_count
    → k'.endpoints ≡ k.endpoints
    → k'.next_pid ≡ k.next_pid
    → IsSteady k
    → IsSteady k'
same-IsSteady k k' a b c d e v = record {
  consistent = same-IsConsistent k k' a b c v.consistent;
  orderly = Quiet-IsOrderly k k' (same-Quiet k k' a d e) v.orderly;
}

pub Quiet-IsSettled : (k k' : Kernel) → Quiet k k' → IsSound k' → IsSettled k → IsSettled k'
Quiet-IsSettled k k' f s v = record { sound = s; orderly = Quiet-IsOrderly k k' f v.orderly }
