-- ===== src/Boot.antt =====
-- The boot of the kernel, src/main.rs: `kernel_main` up to the first user task. Output and the set-up
-- of the UART, the trap vector and the timer are the machine's.
use nek_os.Base.{ℕ, ◌+◌, Bool, Option, none, some, List, [], ◌∷◌, M, pure, ◌>>=◌, ◌>>◌}
use nek_os.Page
use nek_os.Vm
use nek_os.Plic
use nek_os.PageTable.{Phys}
use nek_os.Trap.{TrapFrame}
use nek_os.Initrd.{Entry, load_archive}
use nek_os.Task
use nek_os.Task.{Task, Kernel}
use nek_os.Task.Sched.{enter_task}
use nek_os.Task.Create.{create_idle}
use nek_os.Task.Message.{register_endpoint}
use nek_os.Task.Uart.{grant_uart}
use nek_os.Exec.{spawn}
pub mod Dormant
pub mod Tasks
pub mod Settled

abbrev pub console_endpoint : ℕ
console_endpoint = 1

abbrev pub fs_endpoint : ℕ
fs_endpoint = 2

abbrev pub console_name : List ℕ
console_name = b'c' ∷ b'o' ∷ b'n' ∷ b's' ∷ b'o' ∷ b'l' ∷ b'e' ∷ []

abbrev pub fs_server_name : List ℕ
fs_server_name = b'f' ∷ b's' ∷ b'-' ∷ b's' ∷ b'e' ∷ b'r' ∷ b'v' ∷ b'e' ∷ b'r' ∷ []

abbrev pub shell_name : List ℕ
shell_name = b's' ∷ b'h' ∷ b'e' ∷ b'l' ∷ b'l' ∷ []

-- The tasks of the system, with the endpoints of the two servers; `none` is an `expect` that panics.
unfoldable pub start_tasks : ℕ → List Entry → M Kernel ℕ
unfolding create_idle spawn grant_uart register_endpoint
start_tasks idle_main files = do
  first ← create_idle idle_main
  console_pid ← spawn files console_name
  grant_uart console_pid
  register_endpoint console_endpoint console_pid
  fs_pid ← spawn files fs_server_name
  register_endpoint fs_endpoint fs_pid
  spawn files shell_name

-- A result with the state, if there is one.
abbrev pub with_state : {A : Type 0} → Option A × Kernel → Option (A × Kernel)
with_state (none, k) = none
with_state (some a, k) = some (a, k)

module _ (is_utf8 : List ℕ → Bool) where
  -- `kernel_main`: the task that is entered, and the state then. `memory`, `frames` and `registers` are
  -- what the machine starts with, `kernel_end` and `idle_main` addresses of the linked kernel.
  unfoldable pub kernel_main :
      ℕ → ℕ → List ℕ → (ℕ → ℕ) → (ℕ → TrapFrame) → (ℕ → ℕ) → Option (Task × Kernel)
  unfolding start_tasks enter_task Page.init Vm.init Plic.init load_archive Task.new
  kernel_main kernel_end idle_main archive memory frames registers =
      let (pt, s) = Vm.init (record { mem = memory; pages = some (Page.init kernel_end) }) in
      elim pt [
        | none ↦ none
        | some kernel_pagetable ↦ elim (load_archive is_utf8 archive) [
          | none ↦ none
          | some files ↦
              let boot = (do shell_pid ← start_tasks idle_main files; enter_task shell_pid) in
              with_state (boot (Task.new s frames kernel_pagetable (Plic.init registers)))
        ]
      ]
