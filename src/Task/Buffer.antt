-- ===== src/Task/Buffer.antt =====
-- Messages with a buffer, src/kernel/task.rs: `mem_copy_from_user`, `mem_copy_to_user`, `ipc_call_buf`,
-- `ipc_recv_buf` and `ipc_reply_buf`. Memory is word-addressed; a byte is a digit of its word.
use nek_os.Base.{
  ℕ, zero, suc, ◌+◌, ◌-◌, ◌*◌, ◌/◌, ◌%◌, ◌^◌, min, Bool, true, false, ◌||◌, ◌&&◌, Option, none,
  some, List, set, get_or, length, take, ◌==◌, ltb, if◌then◌else◌, opt_eq, and_then, map_option,
  not, ◌++◌, drop,
}
use nek_os.Base.Words.{add_usize}
use nek_os.PageTable.{Phys, virt_to_phys, write_word}
use nek_os.Ipc.{
  Words, Message, Endpoint, IpcResult, resume, error, panicked, blocked, ipc_buf_size, push, pop,
  is_full,
}
use nek_os.Task.{
  Task, Kernel, ipc_call, ipc_recv, position, task_at, update_at, write_frame, has_pid,
  current_index, is_sleeping, one_more,
}
use nek_os.Task.Sched.{schedule, sleep_at}
use nek_os.Task.Exit.{awaken}
use nek_os.Task.Message.{endpoint_at, set_endpoint, set_message, calls_endpoint, owned_by}

unfoldable pub read_byte : (ℕ → ℕ) → ℕ → ℕ
read_byte mem a = mem (a / 8 * 8) / 256 ^ (a % 8) % 256

unfoldable pub write_byte : (ℕ → ℕ) → ℕ → ℕ → ℕ → ℕ
unfolding read_byte
write_byte mem a v =
    write_word mem (a / 8 * 8)
      (mem (a / 8 * 8) + v * 256 ^ (a % 8) - read_byte mem a * 256 ^ (a % 8))

-- The loop of `mem_copy_from_user` from byte `i` on: the buffer, and whether it was all read.
unfoldable pub copy_from_user : ℕ → ℕ → ℕ → ℕ → List ℕ → Phys → Bool × List ℕ
unfolding read_byte
copy_from_user zero i pt user_src dst s = (true, dst)
copy_from_user (suc n) i pt user_src dst s = elim (virt_to_phys pt (add_usize user_src i) s).0 [
  | none ↦ (false, dst)
  | some pa ↦ copy_from_user n (i + 1) pt user_src (set dst i (read_byte s.mem pa)) s
]

unfoldable pub mem_copy_from_user : ℕ → List ℕ → ℕ → ℕ → Phys → Bool × List ℕ
unfolding copy_from_user
mem_copy_from_user pt dst user_src len s = copy_from_user (min len (length dst)) 0 pt user_src dst s

-- The loop of `mem_copy_to_user` from byte `i` on.
unfoldable pub copy_to_user : ℕ → ℕ → ℕ → ℕ → List ℕ → Phys → Bool × Phys
unfolding write_byte
copy_to_user zero i pt user_dst src s = (true, s)
copy_to_user (suc n) i pt user_dst src s = elim (virt_to_phys pt (add_usize user_dst i) s).0 [
  | none ↦ (false, s)
  | some pa ↦
      copy_to_user n (i + 1) pt user_dst src
        (record s { mem = write_byte s.mem pa (get_or src i 0) })
]

unfoldable pub mem_copy_to_user : ℕ → ℕ → List ℕ → ℕ → Phys → Bool × Phys
unfolding copy_to_user
mem_copy_to_user pt user_dst src len s = copy_to_user (min len (length src)) 0 pt user_dst src s

-- `&mut copy_buf[..n]` replaced by `front`, which is as long.
abbrev splice : List ℕ → ℕ → List ℕ → List ℕ
splice front n buf = front ++ drop n buf

-- The first part of `ipc_call_buf`: the sender's bytes go to `copy_buf`.
unfoldable pub stage : ℕ → Endpoint → ℕ → ℕ → Kernel → Bool × Kernel
unfolding mem_copy_from_user
stage e ep user_buf buf_len k =
    if buf_len == 0
    then (true, set_endpoint e (record ep { copy_len = 0 }) k)
    else elim (and_then (current_index k) (λ i. task_at i k.tasks)) [
      | none ↦ (false, k)
      | some t ↦
          let (fine, front) =
            mem_copy_from_user t.pagetable (take buf_len ep.copy_buf) user_buf buf_len k.phys in
          let filled : Endpoint = record ep { copy_buf = splice front buf_len ep.copy_buf } in
          (
            fine,
            set_endpoint e (record filled { copy_len = if fine then buf_len else filled.copy_len })
                k,
          )
    ]

-- What the receiver's buffer gets: its length, and memory.
unfoldable pub fill_receiver : Endpoint → ℕ → Task → Phys → ℕ × Phys
unfolding mem_copy_to_user
fill_receiver ep buf_len r s =
    if buf_len == 0 || ep.recv_buf_addr == 0
    then (0, s)
    else (let copy_len = min buf_len ep.recv_buf_capacity in
        let (fine, s') =
          mem_copy_to_user r.pagetable ep.recv_buf_addr (take copy_len ep.copy_buf) copy_len s in
        (if fine then copy_len else 0, s'))

-- The waiting receiver in slot `i` gets the message, and its bytes where it waits with a buffer.
unfoldable pub deliver_buf : ℕ → ℕ → Endpoint → ℕ → Words → ℕ → Kernel → Kernel
unfolding fill_receiver
deliver_buf i e ep sender words buf_len k = elim (task_at i k.tasks) [
  | none ↦ k
  | some r ↦
      let (copied, s) = fill_receiver ep buf_len r k.phys in
      let message = set_message (k.frames r.trap_frame) sender words in
      record k {
        phys = s;
        frames = write_frame k.frames r.trap_frame (record message { a5 = copied });
        tasks = update_at i awaken k.tasks;
        runnable_count = one_more k.runnable_count;
        endpoints = set k.endpoints e (
            some (record ep { waiting_receiver = none; recv_buf_addr = 0; recv_buf_capacity = 0 }));
      }
]

-- The message joins the queue; its bytes stay in `copy_buf`.
unfoldable pub enqueue_buf : ℕ → Endpoint → ℕ → Words → ℕ → Kernel → Kernel
unfolding push
enqueue_buf e ep sender words buf_len k =
    let message : Message = record { sender = sender; words = words; buf_len = buf_len % 2 ^ 16 } in
    set_endpoint e
      (record ep {
        pending = (push message ep.pending).1;
        has_buffered = if buf_len == 0 then ep.has_buffered else true;
      })
      k

-- The last part of `ipc_call_buf`, with the sender asleep.
unfoldable pub hand_on_buf : ℕ → Endpoint → ℕ → Words → ℕ → ℕ → Kernel → IpcResult × Kernel
unfolding deliver_buf enqueue_buf schedule position
hand_on_buf e ep sender words buf_len tf k =
    if opt_eq ep.waiting_receiver (some ep.owner)
    then elim (position (has_pid ep.owner) k.tasks) [
      | none ↦ (panicked, k)
      | some r ↦
          let (next, k') = schedule tf (deliver_buf r e ep sender words buf_len k) in
          (blocked next, k')
    ]
    else (let (next, k') = schedule tf (enqueue_buf e ep sender words buf_len k) in
        (blocked next, k'))

-- The sender goes to sleep and its message goes on.
unfoldable pub send_staged : ℕ → ℕ → Words → ℕ → ℕ → Kernel → IpcResult × Kernel
unfolding hand_on_buf sleep_at position
send_staged e sender words buf_len tf k = elim (endpoint_at e k.endpoints) [
  | none ↦ (panicked, k)
  | some ep ↦ elim (position (has_pid sender) k.tasks) [
    | none ↦ (error, k)
    | some i ↦ hand_on_buf e ep sender words buf_len tf (sleep_at i (ipc_call e) tf k)
  ]
]

unfoldable pub send_buf : ℕ → Words → ℕ → ℕ → ℕ → Kernel → IpcResult × Kernel
unfolding send_staged stage
send_buf e words user_buf buf_len tf k = elim k.current_pid [
  | none ↦ (error, k)
  | some sender ↦ elim (endpoint_at e k.endpoints) [
    | none ↦ (error, k)
    | some ep ↦
        let buffered_blocked =
          ep.has_buffered && not (opt_eq ep.waiting_receiver (some ep.owner)) in
        if (sender == ep.owner || (is_full ep.pending || buffered_blocked))
          || ltb ipc_buf_size buf_len
        then (error, k)
        else (let (fine, k1) = stage e ep user_buf buf_len k in
            if fine then send_staged e sender words buf_len tf k1 else (error, k1))
  ]
]

-- The bytes of a queued message go to the receiver, which is the current task; the result is `a5`.
unfoldable pub unload : Endpoint → ℕ → ℕ → ℕ → Kernel → ℕ × Phys
unfolding mem_copy_to_user
unload ep buf_len user_buf capacity k =
    let copy_len = min buf_len capacity in
    elim (and_then (current_index k) (λ i. task_at i k.tasks)) [
      | none ↦ (0, k.phys)
      | some t ↦
          let (fine, s) =
            mem_copy_to_user t.pagetable user_buf (take copy_len ep.copy_buf) copy_len k.phys in
          (if fine then copy_len else 0, s)
    ]

-- A queued message is taken.
unfoldable pub take_buf : ℕ → Endpoint → Message → ℕ → ℕ → ℕ → Kernel → IpcResult × Kernel
unfolding unload pop
take_buf e ep m user_buf capacity tf k =
    let rest = (pop ep.pending).1 in
    let message = set_message (k.frames tf) m.sender m.words in
    if m.buf_len == 0
    then (
      resume,
      record k {
        endpoints = set k.endpoints e (some (record ep { pending = rest }));
        frames = write_frame k.frames tf (record message { a5 = 0 });
      },
    )
    else (let (copied, s) = unload ep m.buf_len user_buf capacity k in
        (
          resume,
          record k {
            endpoints =
                set k.endpoints e (some (record ep { pending = rest; has_buffered = false }));
            frames = write_frame k.frames tf (record message { a5 = copied });
            phys = s;
          },
        ))

-- The receiver goes to sleep and leaves its buffer's address.
unfoldable pub wait_with_buf : ℕ → Endpoint → ℕ → ℕ → ℕ → ℕ → Kernel → IpcResult × Kernel
unfolding sleep_at schedule position
wait_with_buf e ep receiver user_buf capacity tf k =
    let k1 =
      set_endpoint e
        (record ep {
          waiting_receiver = some receiver;
          recv_buf_addr = user_buf;
          recv_buf_capacity = capacity;
        })
        k in
    elim (current_index k1) [
      | none ↦ (error, k1)
      | some i ↦ let (next, k') = schedule tf (sleep_at i (ipc_recv e) tf k1) in (blocked next, k')
    ]

unfoldable pub receive_buf : ℕ → ℕ → ℕ → ℕ → Kernel → IpcResult × Kernel
unfolding take_buf wait_with_buf
receive_buf e user_buf capacity tf k = elim k.current_pid [
  | none ↦ (error, k)
  | some receiver ↦ elim (endpoint_at e k.endpoints) [
    | none ↦ (error, k)
    | some ep ↦
        if receiver == ep.owner
        then elim (pop ep.pending).0 [
          | some m ↦ take_buf e ep m user_buf capacity tf k
          | none ↦ wait_with_buf e ep receiver user_buf capacity tf k
        ]
        else (error, k)
  ]
]

-- The loop of `ipc_reply_buf` from byte `i` on.
unfoldable pub copy_across : ℕ → ℕ → ℕ → ℕ → ℕ → ℕ → Phys → Bool × Phys
unfolding read_byte write_byte
copy_across zero i from_pt from to_pt to s = (true, s)
copy_across (suc n) i from_pt from to_pt to s =
    let rest = copy_across n (i + 1) from_pt from to_pt to in
    elim (virt_to_phys from_pt (add_usize from i) s).0 [
      | none ↦ (false, s)
      | some src ↦ elim (virt_to_phys to_pt (add_usize to i) s).0 [
        | none ↦ (false, s)
        | some dst ↦ rest (record s { mem = write_byte s.mem dst (read_byte s.mem src) })
      ]
    ]

-- The bytes of the answer, where there are any. `none` is an `unwrap` of the replier's missing table.
unfoldable pub copy_answer : Option ℕ → ℕ → ℕ → ℕ → ℕ → Phys → Option (Bool × Phys)
unfolding copy_across
copy_answer replier_pt copy_len user_buf caller_pt caller_buf_addr s =
    if copy_len == 0 then some (true, s) else elim replier_pt [
      | none ↦ none
      | some from_pt ↦ some (copy_across copy_len 0 from_pt user_buf caller_pt caller_buf_addr s)
    ]

-- The client in slot `i`, asleep in a call to the replier, gets the words and the bytes. `Ok` is
-- `resume`, `Err` is `error`.
unfoldable pub answer_buf : ℕ → Task → Option ℕ → Words → ℕ → ℕ → Kernel → IpcResult × Kernel
unfolding copy_answer
answer_buf i t replier_pt words user_buf buf_len k =
    let frame = k.frames t.trap_frame in
    let copy_len = min (min buf_len frame.a6) ipc_buf_size in
    let answered : Kernel = record k {
      frames = write_frame k.frames t.trap_frame (record frame {
        a0 = words.w0;
        a1 = words.w1;
        a2 = words.w2;
        a3 = words.w3;
        a5 = copy_len;
      });
    } in
    elim (copy_answer replier_pt copy_len user_buf t.pagetable frame.a5 k.phys) [
      | none ↦ (panicked, answered)
      | some (fine, s) ↦
          if fine
          then (
            resume,
            record answered {
              phys = s;
              tasks = update_at i awaken k.tasks;
              runnable_count = one_more k.runnable_count;
            },
          )
          else (error, record answered { phys = s })
    ]

unfoldable pub reply_buf : ℕ → Words → ℕ → ℕ → Kernel → IpcResult × Kernel
unfolding answer_buf position
reply_buf client words user_buf buf_len k = elim k.current_pid [
  | none ↦ (error, k)
  | some replier ↦ elim (position (has_pid client) k.tasks) [
    | none ↦ (error, k)
    | some i ↦ elim (task_at i k.tasks) [
      | none ↦ (error, k)
      | some t ↦ elim (calls_endpoint t.waiting_for) [
        | none ↦ (error, k)
        | some e ↦
            let replier_task = and_then (current_index k) (λ j. task_at j k.tasks) in
            if owned_by replier (endpoint_at e k.endpoints) && is_sleeping t.state
            then answer_buf i t (map_option (λ (r : Task). r.pagetable) replier_task) words user_buf
                buf_len k
            else (error, k)
      ]
    ]
  ]
]
