-- ===== src/Task.antt =====
-- Tasks and the task manager, src/kernel/task.rs: the types, and the searches over the task table that
-- the operations share. The operations stand in the modules below.
use nek_os.Base.{
  ℕ, zero, suc, ◌+◌, ◌-◌, ◌*◌, ◌/◌, ◌%◌, ◌^◌, Bool, true, false, Option, none, some, List, [], ◌∷◌,
  replicate, ◌==◌, if◌then◌else◌, map_option, and_then,
}
use nek_os.PageTable.{Phys}
use nek_os.Trap.{TrapFrame}
use nek_os.Ipc.{Endpoint, max_endpoints}
pub mod Space
pub mod Create
pub mod Fork
pub mod Sched
pub mod Exit
pub mod Message
pub mod Buffer
pub mod Uart
pub mod Table
pub mod RoundRobin
pub mod Sound
pub mod Keep
pub mod Messages
pub mod Waitpid
pub mod Everyone
pub mod Leave
pub mod Slots
pub mod Wake
pub mod Blocking
pub mod Runnable
pub mod Quiet
pub mod Awake
pub mod Calm
pub mod Settled
pub mod Frames

abbrev pub max_tasks : ℕ
max_tasks = 16

abbrev pub user_stack_top : ℕ
user_stack_top = 0x4000_0000

abbrev pub heap_limit : ℕ
heap_limit = 0x4000_0000 - 2 * 4096

abbrev pub idle_pid : ℕ
idle_pid = 0

pub data TaskState : Type 0 where
  unused ready running sleeping zombie : TaskState

-- `==` on states, derived in the source.
abbrev pub is_ready : TaskState → Bool
is_ready ready = true
is_ready _ = false

abbrev pub is_running : TaskState → Bool
is_running running = true
is_running _ = false

abbrev pub is_sleeping : TaskState → Bool
is_sleeping sleeping = true
is_sleeping _ = false

abbrev pub is_zombie : TaskState → Bool
is_zombie zombie = true
is_zombie _ = false

pub data WaitChannel : Type 0 where
  child : ℕ → WaitChannel
  uart_rx : WaitChannel
  ipc_call ipc_recv : ℕ → WaitChannel

-- A task. Frames, stacks and page tables are physical addresses, an `i32` is its bit pattern.
pub record Task : Type 0 where
  pub pid : ℕ
  pub state : TaskState
  pub trap_frame : ℕ
  pub kernel_stack : ℕ
  pub user_stack : ℕ
  pub entry : ℕ
  pub pagetable : ℕ
  pub exit_code : ℕ
  pub image_base : ℕ
  pub image_size : ℕ
  pub heap_base : ℕ
  pub heap_end : ℕ
  pub parent_pid : Option ℕ
  pub waiting_for : Option WaitChannel

pub data WaitResult : Type 0 where
  reaped : ℕ → WaitResult
  blocked : ℕ → WaitResult
  error : WaitResult

abbrev pub Table : Type 0
Table = List (Option Task)

-- The task manager with the machine that it works on: memory and page allocator, the trap frames by
-- their addresses, the kernel's page table and the registers of the PLIC.
pub record Kernel : Type 0 where
  pub phys : Phys
  pub frames : ℕ → TrapFrame
  pub kernel_pagetable : ℕ
  pub current_pid : Option ℕ
  pub tasks : Table
  pub next_pid : ℕ
  pub runnable_count : ℕ
  pub endpoints : List (Option Endpoint)
  pub uart_owner : Option ℕ
  pub plic : ℕ → ℕ

-- `TaskManager::new`
unfoldable pub new : Phys → (ℕ → TrapFrame) → ℕ → (ℕ → ℕ) → Kernel
new phys frames kernel_pagetable plic = record {
  phys = phys;
  frames = frames;
  kernel_pagetable = kernel_pagetable;
  current_pid = none;
  tasks = replicate max_tasks none;
  next_pid = 1;
  runnable_count = 0;
  endpoints = replicate max_endpoints none;
  uart_owner = none;
  plic = plic;
}

-- A write through `*mut TrapFrame`.
abbrev pub write_frame : (ℕ → TrapFrame) → ℕ → TrapFrame → ℕ → TrapFrame
write_frame frames a f b = if a == b then f else frames b

-- `iter().position(|slot| slot.as_ref().is_some_and(p))`
unfoldable pub position : (Task → Bool) → Table → Option ℕ
position p [] = none
position p (none ∷ ts) = map_option suc (position p ts)
position p (some t ∷ ts) = let rest = map_option suc (position p ts) in if p t then some 0 else rest

-- `iter().position(|slot| slot.is_none())`
unfoldable pub empty_slot : Table → Option ℕ
empty_slot [] = none
empty_slot (none ∷ ts) = some 0
empty_slot (some t ∷ ts) = map_option suc (empty_slot ts)

-- The task in slot `i`.
unfoldable pub task_at : ℕ → Table → Option Task
task_at i [] = none
task_at zero (t ∷ ts) = t
task_at (suc i) (t ∷ ts) = task_at i ts

-- A change of the task in slot `i`.
unfoldable pub update_at : ℕ → (Task → Task) → Table → Table
update_at i f [] = []
update_at zero f (none ∷ ts) = none ∷ ts
update_at zero f (some t ∷ ts) = some (f t) ∷ ts
update_at (suc i) f (t ∷ ts) = t ∷ update_at i f ts

-- `iter().flatten().find(p)`
abbrev pub find_task : (Task → Bool) → Table → Option Task
find_task p ts = and_then (position p ts) (λ i. task_at i ts)

-- The first task that `p` holds of, changed by `f`: `if let Some(t) = iter_mut().find(p) { .. }`
abbrev pub update_first : (Task → Bool) → (Task → Task) → Table → Table
update_first p f ts = elim (position p ts) [ none ↦ ts | some i ↦ update_at i f ts ]

-- A loop over all tasks.
unfoldable pub update_all : (Task → Task) → Table → Table
update_all f [] = []
update_all f (none ∷ ts) = none ∷ update_all f ts
update_all f (some t ∷ ts) = some (f t) ∷ update_all f ts

abbrev pub has_pid : ℕ → Task → Bool
has_pid pid t = t.pid == pid

-- `current` and `current_mut`
abbrev pub current : Kernel → Option Task
current k = and_then k.current_pid (λ pid. find_task (has_pid pid) k.tasks)

-- The slot of the current task.
abbrev pub current_index : Kernel → Option ℕ
current_index k = and_then k.current_pid (λ pid. position (has_pid pid) k.tasks)

-- `u32::saturating_sub(1)`
abbrev pub one_less : ℕ → ℕ
one_less n = n - 1

-- `n += 1` on a `u32`
abbrev pub one_more : ℕ → ℕ
one_more n = (n + 1) % 2 ^ 32

-- An `i32` as `usize`: sign extension.
abbrev pub sign_extend : ℕ → ℕ
sign_extend c = if c / 2 ^ 31 == 0 then c else c + (2 ^ 64 - 2 ^ 32)

-- `set_current`
unfoldable pub set_current : ℕ → Kernel → Kernel
set_current pid k = elim (position (has_pid pid) k.tasks) [
  | none ↦ k
  | some i ↦ record k {
    tasks = update_at i (λ t. record t { state = running }) k.tasks;
    current_pid = some pid;
  }
]
