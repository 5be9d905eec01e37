-- ===== src/Ipc.antt =====
-- Messages, the queue of pending messages and endpoints, src/kernel/ipc.rs.
use nek_os.Base.{
  ℕ, suc, ◌+◌, ◌-◌, ◌%◌, Bool, Option, none, some, List, get_or, set, replicate, ◌==◌,
  if◌then◌else◌, M,
}
pub mod Queue

abbrev pub max_endpoints : ℕ
max_endpoints = 8

abbrev pub msg_queue_size : ℕ
msg_queue_size = 8

abbrev pub ipc_buf_size : ℕ
ipc_buf_size = 4096

-- `[usize; 4]`
pub record Words : Type 0 where
  pub w0 : ℕ
  pub w1 : ℕ
  pub w2 : ℕ
  pub w3 : ℕ

pub record Message : Type 0 where
  pub sender : ℕ
  pub words : Words
  pub buf_len : ℕ

pub record MsgQueue : Type 0 where
  pub buf : List Message
  pub head : ℕ
  pub tail : ℕ
  pub count : ℕ

abbrev pub no_message : Message
no_message = record { sender = 0; words = record { w0 = 0; w1 = 0; w2 = 0; w3 = 0 }; buf_len = 0 }

unfoldable pub new_queue : MsgQueue
new_queue = record { buf = replicate msg_queue_size no_message; head = 0; tail = 0; count = 0 }

abbrev pub is_full : MsgQueue → Bool
is_full q = q.count == msg_queue_size

abbrev pub is_empty : MsgQueue → Bool
is_empty q = q.count == 0

-- `none` is `Err(())`.
unfoldable pub push : Message → M MsgQueue (Unit {0})
push msg q = if is_full q then (none, q) else (
  some tt,
  record q {
    buf = set q.buf q.tail msg;
    tail = (q.tail + 1) % msg_queue_size;
    count = q.count + 1;
  },
)

unfoldable pub pop : M MsgQueue Message
pop q = if is_empty q then (none, q) else (
  some (get_or q.buf q.head no_message),
  record q { head = (q.head + 1) % msg_queue_size; count = q.count - 1 },
)

unfoldable pub peek : MsgQueue → Option Message
peek q = if is_empty q then none else some (get_or q.buf q.head no_message)

pub record Endpoint : Type 0 where
  pub owner : ℕ
  pub waiting_receiver : Option ℕ
  pub pending : MsgQueue
  pub copy_buf : List ℕ
  pub copy_len : ℕ
  pub recv_buf_addr : ℕ
  pub recv_buf_capacity : ℕ
  pub has_buffered : Bool

-- `*mut TrapFrame` is the frame's address, `resume` is `Continue`, and `panicked` an `unwrap` of `None`.
pub data IpcResult : Type 0 where
  resume error panicked : IpcResult
  blocked : ℕ → IpcResult
