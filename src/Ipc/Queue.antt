-- ===== src/Ipc/Queue.antt =====
-- `MsgQueue` of src/kernel/ipc.rs against a first-in first-out queue of at most eight messages.
use nek_os.Base.{
  ℕ, zero, suc, ◌+◌, ◌-◌, ◌%◌, ◌≤◌, ◌<◌, Option, none, some, List, [], ◌∷◌, ◌++◌, length,
  length-set, get_or, set, ◌≡◌, refl, ap, ap₂, ◌≢◌, arith, get_or-set_self, get_or-set_ne, ◌==◌,
  if◌then◌else◌,
}
use nek_os.Ipc.{Message, MsgQueue, msg_queue_size, no_message, new_queue, push, pop}

pub record IsValid (q : MsgQueue) : Type 0 where
  pub slots : length q.buf ≡ 8
  pub head_in : q.head < 8
  pub count_in : q.count ≤ 8
  pub tail_at : q.tail ≡ (q.head + q.count) % 8

-- The `n` messages from slot `h` on, going round.
window : List Message → ℕ → ℕ → List Message
window buf h zero = []
window buf h (suc n) = get_or buf h no_message ∷ window buf ((h + 1) % 8) n

-- The messages of the queue, oldest first.
pub contents : MsgQueue → List Message
unfolding window
contents q = window q.buf q.head q.count

-- The queue that `MsgQueue` implements.
pub fifo_push : Message → List Message → Option (Unit {0}) × List Message
fifo_push m ms = if length ms == msg_queue_size then (none, ms) else (some tt, ms ++ m ∷ [])

pub fifo_pop : List Message → Option Message × List Message
fifo_pop [] = (none, [])
fifo_pop (m ∷ ms) = (some m, ms)

length-window : (buf : List Message) (h n : ℕ) → length (window buf h n) ≡ n
unfolding window
length-window buf h zero = refl
length-window buf h (suc n) = ap suc (length-window buf ((h + 1) % 8) n)

window_of_ne_zero :
    (buf : List Message) (h n : ℕ)
    → n ≢ 0
    → window buf h n ≡ get_or buf h no_message ∷ window buf ((h + 1) % 8) (n - 1)
unfolding window
window_of_ne_zero buf h zero p = absurd (p refl)
window_of_ne_zero buf h (suc n) p = ap (λ k. window buf h (suc k)) (omega arith)

-- A message written behind a window extends it.
window-set :
    (buf : List Message) (m : Message) (n h i : ℕ)
    → length buf ≡ 8
    → h < 8
    → n < 8
    → i ≡ (h + n) % 8
    → window (set buf i m) h (suc n) ≡ window buf h n ++ m ∷ []
unfolding window
window-set buf m zero h i l hh hn e =
    let same : i ≡ h = omega arith in rw (same, get_or-set_self buf h m no_message (omega arith))
window-set buf m (suc n) h i l hh hn e =
    let ne : i ≢ h = λ q. absurd (omega arith) in
    ap₂ ◌∷◌ (get_or-set_ne buf i h m no_message ne)
      (window-set buf m n ((h + 1) % 8) i l (omega arith) (omega arith) (omega arith))

pub new_queue-IsValid : IsValid new_queue × (contents new_queue ≡ [])
unfolding new_queue contents
new_queue-IsValid = (omega arith, refl)

-- `push` keeps the ring valid: eight slots, head below 8, at most 8 messages, tail behind the last.
pub push-IsValid : (m : Message) (q : MsgQueue) → IsValid q → IsValid (push m q).1
unfolding push
push-IsValid m q v = ground (arith, length-set q.buf q.tail m)

-- `pop` keeps the ring valid.
pub pop-IsValid : (q : MsgQueue) → IsValid q → IsValid (pop q).1
unfolding pop
pop-IsValid q v = ground arith

-- `push` on the ring is `push` on the queue of its messages: it refuses a ninth message and changes
-- nothing, and otherwise puts the message last.
pub push_refines :
    (m : Message) (q : MsgQueue)
    → IsValid q
    → let (r, q') = push m q in (r, contents q') ≡ fifo_push m (contents q)
unfolding push contents fifo_push
push_refines m q v = ground (
  arith,
  length-window q.buf q.head q.count,
  window-set q.buf m q.count q.head q.tail v.slots v.head_in,
)

-- `pop` on the ring is `pop` on the queue of its messages: it takes the oldest one.
pub pop_refines :
    (q : MsgQueue) → IsValid q → let (r, q') = pop q in (r, contents q') ≡ fifo_pop (contents q)
unfolding pop contents fifo_pop
pop_refines q v = ground (arith, window_of_ne_zero q.buf q.head q.count)
