-- ===== src/Task/Message.antt =====
-- Synchronous messages without a buffer, src/kernel/task.rs: `register_endpoint`, `ipc_call`,
-- `ipc_recv` and `ipc_reply`.
use nek_os.Base.{
  ℕ, Bool, false, ◌||◌, ◌&&◌, Option, none, some, List, replicate, set, get_elem?, ◌==◌, leb,
  if◌then◌else◌, opt_eq, and_then, is_some, is_none,
}
use nek_os.Trap.{TrapFrame}
use nek_os.Ipc.{
  Words, Endpoint, IpcResult, resume, error, panicked, blocked, max_endpoints, ipc_buf_size,
  new_queue, push, pop, is_full,
}
use nek_os.Task.{
  Kernel, WaitChannel, child, uart_rx, ipc_call, ipc_recv, position, task_at, update_at,
  write_frame, has_pid, current_index, is_sleeping, one_more,
}
use nek_os.Task.Sched.{schedule, sleep_at}
use nek_os.Task.Exit.{awaken}

-- `self.endpoints.get(endpoint).and_then(|e| e.as_ref())`
abbrev pub endpoint_at : ℕ → List (Option Endpoint) → Option Endpoint
endpoint_at e es = and_then (get_elem? es e) (λ o. o)

abbrev pub set_endpoint : ℕ → Endpoint → Kernel → Kernel
set_endpoint e ep k = record k { endpoints = set k.endpoints e (some ep) }

-- `set_message`
abbrev pub set_message : TrapFrame → ℕ → Words → TrapFrame
set_message f sender w = record f { a0 = sender; a1 = w.w0; a2 = w.w1; a3 = w.w2; a4 = w.w3 }

unfoldable pub register_endpoint : ℕ → ℕ → Kernel → Option (Unit {0}) × Kernel
unfolding position new_queue
register_endpoint endpoint owner k =
    if leb max_endpoints endpoint || is_some (endpoint_at endpoint k.endpoints)
    then (none, k)
    else if is_none (position (has_pid owner) k.tasks)
    then (none, k)
    else (
      some tt,
      set_endpoint endpoint
          (record {
            owner = owner;
            waiting_receiver = none;
            pending = new_queue;
            copy_buf = replicate ipc_buf_size 0;
            copy_len = 0;
            recv_buf_addr = 0;
            recv_buf_capacity = 0;
            has_buffered = false;
          })
          k,
    )

-- The receiver in slot `i`, asleep in `ipc_recv`, gets the message in its frame and becomes ready.
unfoldable pub deliver : ℕ → ℕ → Endpoint → ℕ → Words → Kernel → Kernel
deliver i e ep sender words k = elim (task_at i k.tasks) [
  | none ↦ k
  | some r ↦ record k {
    frames = write_frame k.frames r.trap_frame (set_message (k.frames r.trap_frame) sender words);
    tasks = update_at i awaken k.tasks;
    runnable_count = one_more k.runnable_count;
    endpoints = set k.endpoints e (some (record ep { waiting_receiver = none }));
  }
]

-- The message joins the queue.
unfoldable pub enqueue : ℕ → Endpoint → ℕ → Words → Kernel → Kernel
unfolding push
enqueue e ep sender words k =
    let q = (push (record { sender = sender; words = words; buf_len = 0 }) ep.pending).1 in
    set_endpoint e (record ep { pending = q }) k

-- The rest of `ipc_call`, with the sender asleep.
unfoldable pub hand_on : ℕ → Endpoint → ℕ → Words → ℕ → Kernel → IpcResult × Kernel
unfolding deliver enqueue schedule position
hand_on e ep sender words tf k =
    if opt_eq ep.waiting_receiver (some ep.owner)
    then elim (position (has_pid ep.owner) k.tasks) [
      | none ↦ (panicked, k)
      | some r ↦ let (next, k') = schedule tf (deliver r e ep sender words k) in (blocked next, k')
    ]
    else (let (next, k') = schedule tf (enqueue e ep sender words k) in (blocked next, k'))

unfoldable pub send : ℕ → Words → ℕ → Kernel → IpcResult × Kernel
unfolding hand_on sleep_at position
send e words tf k = elim k.current_pid [
  | none ↦ (error, k)
  | some sender ↦ elim (endpoint_at e k.endpoints) [
    | none ↦ (error, k)
    | some ep ↦
        if sender == ep.owner || is_full ep.pending
        then (error, k)
        else elim (position (has_pid sender) k.tasks) [
          | none ↦ (error, k)
          | some i ↦ hand_on e ep sender words tf (sleep_at i (ipc_call e) tf k)
        ]
  ]
]

-- The receiver goes to sleep at its own endpoint.
unfoldable pub wait_for_message : ℕ → Endpoint → ℕ → ℕ → Kernel → IpcResult × Kernel
unfolding sleep_at schedule position
wait_for_message e ep receiver tf k =
    let k1 = set_endpoint e (record ep { waiting_receiver = some receiver }) k in
    elim (current_index k1) [
      | none ↦ (error, k1)
      | some i ↦ let (next, k') = schedule tf (sleep_at i (ipc_recv e) tf k1) in (blocked next, k')
    ]

unfoldable pub receive : ℕ → ℕ → Kernel → IpcResult × Kernel
unfolding wait_for_message pop
receive e tf k = elim k.current_pid [
  | none ↦ (error, k)
  | some receiver ↦ elim (endpoint_at e k.endpoints) [
    | none ↦ (error, k)
    | some ep ↦
        if receiver == ep.owner
        then elim (pop ep.pending).0 [
          | some m ↦ (
            resume,
            record k {
              endpoints = set k.endpoints e (some (record ep { pending = (pop ep.pending).1 }));
              frames = write_frame k.frames tf (set_message (k.frames tf) m.sender m.words);
            },
          )
          | none ↦ wait_for_message e ep receiver tf k
        ]
        else (error, k)
  ]
]

-- The endpoint whose answer a task waits for.
abbrev pub calls_endpoint : Option WaitChannel → Option ℕ
calls_endpoint (some (ipc_call e)) = some e
calls_endpoint (some (ipc_recv e)) = none
calls_endpoint (some uart_rx) = none
calls_endpoint (some (child p)) = none
calls_endpoint none = none

-- Does `replier` own the endpoint?
abbrev pub owned_by : ℕ → Option Endpoint → Bool
owned_by replier none = false
owned_by replier (some ep) = ep.owner == replier

-- `ipc_reply`: the four words go to the client, which becomes ready.
unfoldable pub reply : ℕ → Words → Kernel → Option (Unit {0}) × Kernel
unfolding position
reply client words k = elim k.current_pid [
  | none ↦ (none, k)
  | some replier ↦ elim (position (has_pid client) k.tasks) [
    | none ↦ (none, k)
    | some i ↦ elim (task_at i k.tasks) [
      | none ↦ (none, k)
      | some t ↦ elim (calls_endpoint t.waiting_for) [
        | none ↦ (none, k)
        | some e ↦
            if owned_by replier (endpoint_at e k.endpoints) && is_sleeping t.state
            then (
              some tt,
              record k {
                frames = write_frame k.frames t.trap_frame (record (k.frames t.trap_frame) {
                  a0 = words.w0;
                  a1 = words.w1;
                  a2 = words.w2;
                  a3 = words.w3;
                });
                tasks = update_at i awaken k.tasks;
                runnable_count = one_more k.runnable_count;
              },
            )
            else (none, k)
      ]
    ]
  ]
]
