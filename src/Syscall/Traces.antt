-- ===== src/Syscall/Traces.antt =====
-- Sequences of traps, src/kernel/trap.rs, with what the tasks do in between.
use nek_os.Base.{ℕ, ◌+◌, ◌<◌, ◌^◌, Bool, some, List, ◌≡◌, refl, sym, ◌∙◌, ◌≢◌}
use nek_os.Trap.{TrapFrame, user_ecall, parse_cause}
use nek_os.Initrd.{Entry}
use nek_os.Task.{Task, Kernel, running, task_at, idle_pid}
use nek_os.Task.Settled.{IsSettled, same-IsSettled}
use nek_os.Syscall.{trap_handler}
use nek_os.Syscall.Settled.{trap_handler-IsSettled}

module _ (is_utf8 : List ℕ → Bool) (files : List Entry) where
  -- Between two traps the task that runs changes registers and memory, and the devices their own.
  pub data Runs (k : Kernel) : Kernel → Type 0 where
    start : Runs k k
    user :
        {l : Kernel} (frames : ℕ → TrapFrame) (mem plic : ℕ → ℕ)
        → Runs k l
        → Runs k (record l { frames = frames; phys = record l.phys { mem = mem }; plic = plic })
    trap :
        {l : Kernel} (scause irq tf : ℕ)
        → Runs k l
        → (parse_cause scause ≡ user_ecall → l.current_pid ≢ some idle_pid)
        → l.next_pid + 1 < 2 ^ 32
        → Runs k (trap_handler is_utf8 files scause irq tf l).1

  Runs-IsSettled : (k l : Kernel) → Runs k l → IsSettled k → IsSettled l
  Runs-IsSettled k l start v = v
  Runs-IsSettled k _ (user {l} frames mem plic r) v =
      same-IsSettled l _ refl refl refl refl refl (Runs-IsSettled k l r v)
  Runs-IsSettled k _ (trap {l} scause irq tf r busy small) v =
      (trap_handler-IsSettled is_utf8 files scause irq tf l busy small (Runs-IsSettled k l r v)).0

  -- After any sequence of traps, with any change of registers and memory by the tasks in between, two
  -- tasks that run are the same one, and it is the current task; where the sequence starts in the
  -- invariant, no system call comes from the idle task and pids are left.
  pub one_runs :
      (k l : Kernel) (i j : ℕ) (t u : Task)
      → IsSettled k
      → Runs k l
      → task_at i l.tasks ≡ some t
      → task_at j l.tasks ≡ some u
      → t.state ≡ running
      → u.state ≡ running
      → (i ≡ j) × (l.current_pid ≡ some t.pid)
  one_runs k l i j t u v r p q a b =
      let c = (Runs-IsSettled k l r v).sound.consistent in
      let mine = c.only_current i t p a in
      let same : t.pid ≡ u.pid = cc (sym mine ∙ c.only_current j u q b) in
      (c.table.distinct i j t u p q same, mine)
