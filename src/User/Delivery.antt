-- ===== src/User/Delivery.antt =====
-- A message of `ipc::call` reaches `ipc::recv`, user/userlib/src/ipc.rs.
use nek_os.Base.{
  ℕ, ◌%◌, ◌^◌, ◌<◌, Bool, true, false, ◌||◌, Option, some, List, ◌==◌, opt_eq, and_then, ◌≡◌, refl,
  sym, ap, ◌∙◌, ◌≢◌, arith, subst, ==_iff,
}
use nek_os.Base.Words.{usize_max}
use nek_os.Trap.{TrapFrame}
use nek_os.Ipc.{Words, Endpoint, blocked, is_full}
use nek_os.Initrd.{Entry}
use nek_os.Task.{
  Task, Kernel, WaitChannel, ipc_call, sleeping, position, task_at, update_at, has_pid,
}
use nek_os.Task.Sched.{schedule, sleep_at}
use nek_os.Task.Exit.{awaken}
use nek_os.Task.Message.{send, hand_on, deliver, endpoint_at, set_message}
use nek_os.Task.Runnable.{IsSound}
use nek_os.Task.Slots.{found_by_pid, at_self, at_other}
use nek_os.Task.Quiet.{SamePids-refl}
use nek_os.Task.Calm.{sleep_at-Quiet}
use nek_os.Task.Keep.{same-IsSound}
use nek_os.Task.Messages.{write_frame-same}
use nek_os.Task.Awake.{Woken, awaken-Woken, schedule-Woken}
use nek_os.Task.Frames.{FrameOf, FrameOf-here, FrameOf-update_at, schedule-frame}
use nek_os.Syscall.{Outcome, return_to, finish_ipc, handle}
use nek_os.User.Ipc.{call_registers, recv_result}
use nek_os.User.Rpc.{entered, handle-call}

frame_read :
    (f : TrapFrame) (pid : ℕ) (words : Words)
    → pid < 2 ^ 32
    → recv_result (set_message f pid words) ≡ some (pid, words)
unfolding recv_result
frame_read f pid words small =
    let big : (pid == usize_max) ≡ false = ground arith in
    let same : pid % 2 ^ 32 ≡ pid = omega arith in rw (big, same) refl

-- A server that waits at endpoint `e`, and a client that runs.
pub record Meets (e : ℕ) (ep : Endpoint) (k : Kernel) (i : ℕ) (c : Task) (j : ℕ) (s : Task)
    : Type 0 where
  pub client : task_at i k.tasks ≡ some c
  pub runs : k.current_pid ≡ some c.pid
  pub server : task_at j k.tasks ≡ some s
  pub waits : ep.waiting_receiver ≡ some ep.owner
  pub owner : s.pid ≡ ep.owner
  pub known : endpoint_at e k.endpoints ≡ some ep
  pub room : is_full ep.pending ≡ false
  pub apart : s.pid ≢ c.pid
  pub frames_apart : c.trap_frame ≢ s.trap_frame

hand_on-delivers :
    (e : ℕ) (ep : Endpoint) (sender : ℕ) (words : Words) (tf j : ℕ) (k : Kernel)
    → opt_eq ep.waiting_receiver (some ep.owner) ≡ true
    → position (has_pid ep.owner) k.tasks ≡ some j
    → hand_on e ep sender words tf k
      ≡ (let (next, k') = schedule tf (deliver j e ep sender words k) in (blocked next, k'))
unfolding hand_on
hand_on-delivers e ep sender words tf j k h q = rw (h, hand_on, q) refl

send-hands_on :
    (e : ℕ) (ep : Endpoint) (sender : ℕ) (words : Words) (tf i : ℕ) (k : Kernel)
    → k.current_pid ≡ some sender
    → endpoint_at e k.endpoints ≡ some ep
    → (sender == ep.owner || is_full ep.pending) ≡ false
    → position (has_pid sender) k.tasks ≡ some i
    → send e words tf k ≡ hand_on e ep sender words tf (sleep_at i (ipc_call e) tf k)
unfolding send
send-hands_on e ep sender words tf i k c p h q = simp (c, send, p, h, q) refl

abbrev asleep_in : WaitChannel → Task → Task
asleep_in c u = record u { state = sleeping; waiting_for = some c }

sleep_at-tasks :
    (i tf : ℕ) (c : WaitChannel) (t : Task) (k : Kernel)
    → task_at i k.tasks ≡ some t
    → ((sleep_at i c tf k).tasks ≡ update_at i (asleep_in c) k.tasks)
      × ((sleep_at i c tf k).current_pid ≡ k.current_pid)
      × ((sleep_at i c tf k).endpoints ≡ k.endpoints)
unfolding sleep_at
sleep_at-tasks i tf c t k p = simp (p, sleep_at) (refl, refl, refl)

deliver-gives :
    (r e : ℕ) (ep : Endpoint) (sender : ℕ) (words : Words) (s : Task) (k : Kernel)
    → task_at r k.tasks ≡ some s
    → ((deliver r e ep sender words k).frames s.trap_frame
        ≡ set_message (k.frames s.trap_frame) sender words)
      × ((deliver r e ep sender words k).current_pid ≡ k.current_pid)
      × ((deliver r e ep sender words k).tasks ≡ update_at r awaken k.tasks)
unfolding deliver
deliver-gives r e ep sender words s k p =
    simp (p, deliver) (write_frame-same k.frames s.trap_frame _, refl, refl)

-- The message, in the state that the call ends in.
sent :
    (e : ℕ) (ep : Endpoint) (words : Words) (tf : ℕ) (k : Kernel) (i : ℕ) (c : Task) (j : ℕ)
    (s : Task)
    → IsSound k
    → Meets e ep k i c j s
    → c.pid < 2 ^ 32
    → (next : ℕ) × (k' : Kernel) × (send e words tf k ≡ (blocked next, k'))
      × (recv_result (k'.frames s.trap_frame) ≡ some (c.pid, words))
      × Woken k'.tasks j s
sent e ep words tf k i c j s v m small =
    let table = v.consistent.table in
    let ch = ipc_call e in
    let mine = found_by_pid k.tasks k.tasks i c.pid c table (SamePids-refl k.tasks) m.client refl in
    let index =
      ap (λ (o : Option ℕ). and_then o (λ x. position (has_pid x) k.tasks)) m.runs ∙ mine in
    let k2 = sleep_at i ch tf k in
    let (tasks2, current2, _) = sleep_at-tasks i tf ch c k m.client in
    let there : task_at j k2.tasks ≡ some s =
      ap (task_at j) tasks2 ∙ at_other i j (asleep_in ch) k.tasks (slots m) ∙ m.server in
    let found =
      found_by_pid k.tasks k2.tasks j ep.owner s table (sleep_at-Quiet k i tf ch v index).pids there
        m.owner in
    let k3 = deliver j e ep c.pid words k2 in
    let (frame3, current3, tasks3) = deliver-gives j e ep c.pid words s k2 there in
    let frames : FrameOf c.pid c.trap_frame k3.tasks =
      subst (FrameOf c.pid c.trap_frame) (sym (tasks3 ∙ ap (update_at j awaken) tasks2)) (
        FrameOf-update_at c.pid c.trap_frame j awaken _ (λ u. (refl, refl))
          (FrameOf-update_at c.pid c.trap_frame i (asleep_in ch) k.tasks (λ u. (refl, refl))
            (FrameOf-here k.tasks i c table m.client))) in
    (
      (schedule tf k3).0,
      (schedule tf k3).1,
      send-hands_on e ep c.pid words tf i k m.runs m.known (allowed m) mine
          ∙ hand_on-delivers e ep c.pid words tf j k2 (ready_to ep m.waits) found,
      ap recv_result (
            schedule-frame tf s.trap_frame c.trap_frame c.pid k3 (current3 ∙ current2 ∙ m.runs)
              frames m.frames_apart
            ∙ frame3)
          ∙ frame_read (k2.frames s.trap_frame) c.pid words small,
      schedule-Woken tf k3 j s
          (awaken-Woken k3.tasks j s (ap (task_at j) tasks3 ∙ at_self j awaken k2.tasks s there)),
    )
  where
    slots : Meets e ep k i c j s → i ≢ j
    slots m q =
        let z : task_at i k.tasks ≡ some s = ap (λ (x : ℕ). task_at x k.tasks) q ∙ m.server in
        let sc : s ≡ c = cc (sym z ∙ m.client) in m.apart (ap (λ (x : Task). x.pid) sc)

    allowed : Meets e ep k i c j s → (c.pid == ep.owner || is_full ep.pending) ≡ false
    allowed m = ground (arith, m.apart, m.owner, m.room)

    ready_to :
        (ep : Endpoint)
        → ep.waiting_receiver ≡ some ep.owner
        → opt_eq ep.waiting_receiver (some ep.owner) ≡ true
    ready_to ep w = rw w ((==_iff ep.owner ep.owner).1 refl)

module _ (is_utf8 : List ℕ → Bool) (files : List Entry) where
  -- Where an endpoint with room in its queue says that its server waits in ipc::recv, an ipc::call of
  -- another task at this endpoint ends in a frame to return to. The server is then awake in its slot,
  -- ready or running, and waits for nothing, and its ipc::recv returns the caller's pid and the four
  -- words.
  pub call-recv :
      (e : ℕ) (ep : Endpoint) (words : Words) (f0 : TrapFrame) (tf : ℕ) (k : Kernel) (i : ℕ)
      (c : Task) (j : ℕ) (s : Task)
      → k.frames tf ≡ call_registers e words f0
      → IsSound k
      → Meets e ep k i c j s
      → c.pid < 2 ^ 32
      → (next : ℕ) × ((handle is_utf8 files tf k).0 ≡ return_to next)
        × (recv_result ((handle is_utf8 files tf k).1.frames s.trap_frame) ≡ some (c.pid, words))
        × Woken (handle is_utf8 files tf k).1.tasks j s
  call-recv e ep words f0 tf k i c j s q v m small =
      let k1 = entered tf k in
      let (next, k', done, read, woken) =
        sent e ep words tf k1 i c j s (same-IsSound k k1 refl refl refl v)
          (record {
            client = m.client;
            runs = m.runs;
            server = m.server;
            waits = m.waits;
            owner = m.owner;
            known = m.known;
            room = m.room;
            apart = m.apart;
            frames_apart = m.frames_apart;
          })
          small in
      let ends = handle-call is_utf8 files e words f0 tf k q ∙ ap (finish_ipc tf) done in
      (
        next,
        ap (λ (r : Outcome × Kernel). r.0) ends,
        ap (λ (r : Outcome × Kernel). recv_result (r.1.frames s.trap_frame)) ends ∙ read,
        subst (λ (r : Outcome × Kernel). Woken r.1.tasks j s) (sym ends) woken,
      )
