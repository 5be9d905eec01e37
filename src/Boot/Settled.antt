-- ===== src/Boot/Settled.antt =====
-- The boot of the kernel, src/main.rs, establishes the invariant that every trap keeps.
use nek_os.Base.{ℕ, Bool, Option, none, some, List, ◌≡◌, refl, ◌⊎◌, inl, inr, arith, Option-cases}
use nek_os.Page
use nek_os.PageTable.{Phys}
use nek_os.Trap.{TrapFrame}
use nek_os.Initrd.{Entry, load_archive}
use nek_os.Task
use nek_os.Task.{
  Task, Table, Kernel, TaskState, ready, running, sleeping, position, empty_slot, task_at,
  update_at, has_pid, idle_pid, one_more,
}
use nek_os.Task.Sched.{enter_task}
use nek_os.Task.Create.{create_idle}
use nek_os.Task.Message.{register_endpoint}
use nek_os.Task.Uart.{grant_uart}
use nek_os.Task.Settled.{IsSettled}
use nek_os.Exec.{spawn}
use nek_os.Boot.{
  start_tasks, kernel_main, with_state, console_name, fs_server_name, shell_name, console_endpoint,
  fs_endpoint,
}
use nek_os.Vm
use nek_os.Plic
use nek_os.Page.{page_size}
use nek_os.Boot.Dormant.{Gave, Holds, then-Holds, create_idle-Holds}
use nek_os.Boot.Tasks.{spawn-Holds, grant_uart-Holds, register_endpoint-Holds, enter_task-Holds}

start_tasks-Holds :
    (idle_main : ℕ) (files : List Entry) (s : Phys) (frames : ℕ → TrapFrame) (pt : ℕ) (regs : ℕ → ℕ)
    → Holds (λ pid. Gave 4) (start_tasks idle_main files (Task.new s frames pt regs))
unfolding start_tasks
start_tasks-Holds idle_main files s frames pt regs =
    then-Holds (λ pid. Gave 1) (λ pid. Gave 4) (create_idle idle_main) _ (Task.new s frames pt regs)
      (create_idle-Holds idle_main s frames pt regs)
      λ a k1 g1.
        then-Holds (λ pid. Gave 2) (λ pid. Gave 4) (spawn files console_name) _ k1
          (spawn-Holds 1 files console_name k1 (omega arith) g1)
          λ console_pid k2 g2.
            then-Holds (λ u. Gave 2) (λ pid. Gave 4) (grant_uart console_pid) _ k2
              (grant_uart-Holds 2 console_pid k2 g2)
              λ b k3 g3.
                then-Holds (λ u. Gave 2) (λ pid. Gave 4)
                  (register_endpoint console_endpoint console_pid) _ k3
                  (register_endpoint-Holds 2 console_endpoint console_pid k3 g3)
                  λ c k4 g4.
                    then-Holds (λ pid. Gave 3) (λ pid. Gave 4) (spawn files fs_server_name) _ k4
                      (spawn-Holds 2 files fs_server_name k4 (omega arith) g4)
                      λ fs_pid k5 g5.
                        then-Holds (λ u. Gave 3) (λ pid. Gave 4)
                          (register_endpoint fs_endpoint fs_pid) _ k5
                          (register_endpoint-Holds 3 fs_endpoint fs_pid k5 g5)
                          λ d k6 g6. spawn-Holds 3 files shell_name k6 (omega arith) g6

with_state-cases :
    {A : Type 0} (P : Kernel → Type 0) (r : Option A × Kernel)
    → Holds (λ a. P) r
    → (with_state r ≡ none) ⊎ ((a : A) × (k : Kernel) × (with_state r ≡ some (a, k)) × P k)
with_state-cases P (none, k) (inl e) = inl refl
with_state-cases P (some a, k) (inl e) = cc
with_state-cases P (none, k) (inr (a, e, p)) = cc
with_state-cases P (some a, k) (inr (b, e, p)) = inr (a, k, refl, p)

module _ (is_utf8 : List ℕ → Bool) where
  -- Whatever the memory, the archive and the registers hold, kernel_main either panics or enters a task
  -- in a state in which the invariant that every trap keeps holds: the idle task, the two servers and
  -- the shell have pids of their own, runnable_count is right, and only the task that is entered runs.
  pub kernel_main-IsSettled :
      (kernel_end idle_main : ℕ) (archive : List ℕ) (memory : ℕ → ℕ) (frames : ℕ → TrapFrame)
      (registers : ℕ → ℕ)
      → (kernel_main is_utf8 kernel_end idle_main archive memory frames registers ≡ none)
        ⊎ ((t : Task) × (k : Kernel) × (kernel_main is_utf8 kernel_end idle_main archive memory
                frames registers
              ≡ some (t, k))
            × IsSettled k)
  unfolding kernel_main
  kernel_main-IsSettled kernel_end idle_main archive memory frames registers =
      let s0 : Phys = record { mem = memory; pages = some (Page.init kernel_end) } in
      elim (Option-cases (Vm.init s0).0) [
        | inl p ↦ rw (p, kernel_main) (inl refl)
        | inr (pt, p) ↦ elim (Option-cases (load_archive is_utf8 archive)) [
          | inl a ↦ rw (p, kernel_main, a) (inl refl)
          | inr (files, a) ↦
              rw (p, kernel_main, a)
                (with_state-cases IsSettled _ (
                  then-Holds (λ pid. Gave 4) (λ t. IsSettled) (start_tasks idle_main files)
                    enter_task (Task.new (Vm.init s0).1 frames pt (Plic.init registers))
                    (start_tasks-Holds idle_main files (Vm.init s0).1 frames pt
                      (Plic.init registers))
                    (λ pid k g. enter_task-Holds 4 pid k g)))
        ]
      ]
