-- ===== src/Tests/Tasks.antt =====
-- Runs of the task manager with the idle task and two users.
use nek_os.Base.{
  ℕ, zero, suc, ◌*◌, sym, ◌∙◌, ap, ◌<◌, false, Option, none, some, [], ◌∷◌, ◌≡◌, refl, ◌⊎◌, inl,
  inr, ◌≢◌, arith, replicate,
}
use nek_os.Trap.{empty_frame}
use nek_os.Ipc.{Words, Endpoint, new_queue}
use nek_os.Task.{
  Task, Table, Kernel, TaskState, ready, running, sleeping, zombie, WaitChannel, ipc_call, ipc_recv,
  child, task_at, update_all, update_at, position, has_pid, idle_pid, max_tasks,
}
use nek_os.Task.Sched.{schedule, pick, slot_holds}
use nek_os.Task.Exit.{leave, exit_current}
use nek_os.Task.Wake.{Waits, Told, leave-Told}
use nek_os.Task.Message.{reply}
use nek_os.Task.Table.{count_runnable}
use nek_os.Task.Runnable.{IsTable, IsConsistent, IsSound}
use nek_os.Task.RoundRobin.{Nearest, Switched, slot_from, candidate_at, pick_lem}
use nek_os.Task.Sound.{schedule-IsSound}
use nek_os.Task.Message.{endpoint_at}
use nek_os.Task.Blocking.{HasReceiver}
use nek_os.Task.Leave.{exit_current-IsSound}
use nek_os.Task.Settled.{IsSettled, Receiver}
use nek_os.Syscall.{trap_handler, on_trap, handle, dispatch}
use nek_os.Syscall.Settled.{Answers, Returns, trap_handler-IsSettled}
use nek_os.Syscall.Traces.{Runs, start, user, trap, one_runs}
use nek_os.Tests.Load.{any_text}
use nek_os.Trap.{parse_cause}
use nek_os.Task.Keep.{same-IsSound}
use nek_os.Task.Messages.{MayAnswer, Answered, reply_lem}

abbrev a_task : ℕ → TaskState → Option WaitChannel → Option ℕ → Task
a_task pid state waiting_for parent_pid = record {
  pid = pid;
  state = state;
  trap_frame = 264 * pid;
  kernel_stack = 0;
  user_stack = 0;
  entry = 0;
  pagetable = 0;
  exit_code = 0;
  image_base = 0;
  image_size = 0;
  heap_base = 0;
  heap_end = 0;
  parent_pid = parent_pid;
  waiting_for = waiting_for;
}

abbrev idle : Task
idle = a_task 0 ready none none

-- The server, which runs, and its parent and client, which waits for an answer of the server.
abbrev pub server : Task
server = a_task 1 running none (some 2)

abbrev pub client : Task
client = a_task 2 sleeping (some (ipc_call 0)) none

abbrev pub an_endpoint : Endpoint
an_endpoint = record {
  owner = 1;
  waiting_receiver = none;
  pending = new_queue;
  copy_buf = replicate 4096 0;
  copy_len = 0;
  recv_buf_addr = 0;
  recv_buf_capacity = 0;
  has_buffered = false;
}

abbrev pub demo : Kernel
demo = record {
  phys = record { mem = λ a. 0; pages = none };
  frames = λ a. empty_frame;
  kernel_pagetable = 0;
  current_pid = some 1;
  tasks = some idle ∷ some server ∷ some client ∷ [];
  next_pid = 3;
  runnable_count = 1;
  endpoints = some an_endpoint ∷ [];
  uart_owner = none;
  plic = λ r. 0;
}

-- Tables of the idle task and two users with pids 1 and 2.
module _ (one two : Task) where
  abbrev three : Table
  three = some idle ∷ some one ∷ some two ∷ []

  three_slots :
      (i : ℕ) (t : Task)
      → task_at i three ≡ some t
      → ((i ≡ 0) × (t ≡ idle)) ⊎ ((i ≡ 1) × (t ≡ one)) ⊎ ((i ≡ 2) × (t ≡ two))
  unfolding task_at
  three_slots zero t e = inl (refl, cc)
  three_slots (suc zero) t e = inr (inl (refl, cc))
  three_slots (suc (suc zero)) t e = inr (inr (refl, cc))
  three_slots (suc (suc (suc i))) t e = cc

  three_pids : (i : ℕ) (t : Task) → one.pid ≡ 1 → two.pid ≡ 2 → task_at i three ≡ some t → t.pid ≡ i
  three_pids i t p q e = elim (three_slots i t e) [
    | inl (a, b) ↦ rw (a, b) refl
    | inr (inl (a, b)) ↦ rw (a, b) p
    | inr (inr (a, b)) ↦ rw (a, b) q
  ]

  three-IsTable : one.pid ≡ 1 → two.pid ≡ 2 → IsTable three
  unfolding task_at
  three-IsTable p q = record {
    slots = omega arith;
    distinct = λ i j t u a b h. sym (three_pids i t p q a) ∙ h ∙ three_pids j u p q b;
    idle = (0, idle, refl, refl, inl refl);
  }

  -- Only the task with pid `r` runs.
  three_running :
      (r i : ℕ) (t : Task)
      → (one.state ≡ running → one.pid ≡ r)
      → (two.state ≡ running → two.pid ≡ r)
      → task_at i three ≡ some t
      → t.state ≡ running
      → t.pid ≡ r
  three_running r i t p q e s = elim (three_slots i t e) [
    | inl (a, b) ↦ absurd (clash (sym (ap (λ (x : Task). x.state) b) ∙ s))
    | inr (inl (a, b)) ↦ ap (λ (x : Task). x.pid) b ∙ p (sym (ap (λ (x : Task). x.state) b) ∙ s)
    | inr (inr (a, b)) ↦ ap (λ (x : Task). x.pid) b ∙ q (sym (ap (λ (x : Task). x.state) b) ∙ s)
  ]
    where
      clash : ready ≡ running → ⊥
      clash h = cc

not_running : sleeping ≡ running → ⊥
not_running h = cc

demo-IsConsistent : IsConsistent demo
unfolding count_runnable
demo-IsConsistent = record {
  table = three-IsTable server client refl refl;
  counted = refl;
  only_current = λ i t p r.
      ap some
        (sym (three_running server client 1 i t (λ q. refl) (λ q. absurd (not_running q)) p r));
}

demo-IsSound : IsSound demo
unfolding task_at
demo-IsSound = record {
  consistent = demo-IsConsistent;
  current_runs = (1, server, refl, refl, refl);
}

schedule-IsSound_example : IsSound (schedule 264 demo).1
schedule-IsSound_example = schedule-IsSound 264 demo demo-IsConsistent

pick_lem_example :
    ((i : ℕ) × (t : Task) × Nearest 0 0 demo.tasks i × Switched i t demo (pick 0 264 demo))
    ⊎ ((i : ℕ) × (t : Task) × ((d : ℕ)
          → d < max_tasks
          → candidate_at (slot_from 0 d) demo.tasks ≡ false)
        × (t.pid ≡ idle_pid)
        × Switched i t demo (pick 0 264 demo))
    ⊎ (((d : ℕ) → d < max_tasks → candidate_at (slot_from 0 d) demo.tasks ≡ false)
        × ((j : ℕ) → slot_holds (has_pid idle_pid) (task_at j demo.tasks) ≡ false)
        × (pick 0 264 demo ≡ (264, demo)))
pick_lem_example = pick_lem 0 264 demo

exit_current-IsSound_example :
    IsSound (exit_current 7 demo).1 × ((frame : ℕ) × ((exit_current 7 demo).0 ≡ some frame))
exit_current-IsSound_example = exit_current-IsSound 7 demo demo-IsSound

abbrev pub four_words : Words
four_words = record { w0 = 10; w1 = 11; w2 = 12; w3 = 13 }

reply_lem_example :
    ((i : ℕ) × (t : Task) × MayAnswer 2 demo i t
      × ((reply 2 four_words demo).0 ≡ some tt)
      × Answered four_words demo (reply 2 four_words demo).1 i t)
    ⊎ (((i : ℕ) (t : Task) → MayAnswer 2 demo i t → ⊥) × (reply 2 four_words demo ≡ (none, demo)))
reply_lem_example = reply_lem 2 four_words demo

not_idle : demo.current_pid ≢ some idle_pid
not_idle h = cc

-- The server's client is awake and calls it, and the server waits for a message.
abbrev pub waiting_server : Task
waiting_server = a_task 1 sleeping (some (ipc_recv 0)) (some 2)

abbrev pub busy_client : Task
busy_client = a_task 2 running none none

abbrev pub waiting_endpoint : Endpoint
waiting_endpoint = record an_endpoint { waiting_receiver = some 1 }

abbrev pub calling : Kernel
calling = record demo {
  current_pid = some 2;
  tasks = some idle ∷ some waiting_server ∷ some busy_client ∷ [];
  endpoints = some waiting_endpoint ∷ [];
}

pub calling-IsSound : IsSound calling
unfolding task_at count_runnable
calling-IsSound = record {
  consistent = record {
    table = three-IsTable waiting_server busy_client refl refl;
    counted = refl;
    only_current = λ i t p r. ap some (
        sym (
          three_running waiting_server busy_client 2 i t (λ q. absurd (not_running q)) (λ q. refl) p
            r));
  };
  current_runs = (2, busy_client, refl, refl, refl);
}

client_not_idle : calling.current_pid ≢ some idle_pid
client_not_idle h = cc

calling-HasReceiver :
    (ep : Endpoint) → endpoint_at 0 calling.endpoints ≡ some ep → HasReceiver ep calling
unfolding task_at
calling-HasReceiver ep e =
    let q : waiting_endpoint ≡ ep = cc in rw (← q) (λ w. (1, waiting_server, refl, refl, refl))

-- The parent of the server waits for it.
abbrev pub waiting_parent : Task
waiting_parent = a_task 2 sleeping (some (child 1)) none

abbrev pub ending : Kernel
ending = record demo { tasks = some idle ∷ some server ∷ some waiting_parent ∷ [] }

pub ending-IsSound : IsSound ending
unfolding task_at count_runnable
ending-IsSound = record {
  consistent = record {
    table = three-IsTable server waiting_parent refl refl;
    counted = refl;
    only_current = λ i t p r. ap some (
        sym (
          three_running server waiting_parent 1 i t (λ q. refl) (λ q. absurd (not_running q)) p r));
  };
  current_runs = (1, server, refl, refl, refl);
}

ending-Waits : Waits ending 1 server 2 waiting_parent
unfolding task_at
ending-Waits = record {
  exiting = refl;
  is_current = refl;
  parent = refl;
  waiting = refl;
  asleep = refl;
  channel = refl;
}

leave-Told_example : Told 7 ending (leave 7 ending) 1 server 2 waiting_parent
leave-Told_example = leave-Told 7 ending 1 server 2 waiting_parent ending-IsSound ending-Waits

-- A zombie without a parent in the second slot.
abbrev with_zombie : Table
with_zombie = some idle ∷ some (a_task 3 zombie none none) ∷ []

-- The server answers its client, which is in slot 2.
reply_succeeds : (reply 2 four_words demo).0 ≡ some tt
unfolding reply position task_at
reply_succeeds = refl

-- The server exits, and its parent, which does not wait for it, goes on sleeping.
exit_runs_idle : (exit_current 7 demo).0 ≡ some 0
unfolding exit_current task_at update_all update_at
exit_runs_idle = refl

-- The client calls the server, which waits for it.
abbrev trapping : Kernel
trapping = record calling { frames = λ a. record empty_frame { a1 = 7; a7 = 10 } }

trapping-IsSettled : IsSettled trapping
unfolding task_at count_runnable
trapping-IsSettled = record {
  sound = same-IsSound calling trapping refl refl refl calling-IsSound;
  orderly = record {
    fresh = λ i t p. pids i t (three_slots waiting_server busy_client i t p);
    waiting = λ e ep p w. there e ep p;
  };
}
  where
    pids :
        (i : ℕ) (t : Task)
        → ((i ≡ 0) × (t ≡ idle)) ⊎ ((i ≡ 1) × (t ≡ waiting_server)) ⊎ ((i ≡ 2) × (t ≡ busy_client))
        → t.pid < 3
    pids i t (inl (a, b)) = rw b (omega arith)
    pids i t (inr (inl (a, b))) = rw b (omega arith)
    pids i t (inr (inr (a, b))) = rw b (omega arith)

    there :
        (e : ℕ) (ep : Endpoint) → endpoint_at e calling.endpoints ≡ some ep → Receiver e ep trapping
    there zero ep p =
        let q : waiting_endpoint ≡ ep = cc in rw (← q) (1, waiting_server, refl, refl, (refl, refl))
    there (suc e) ep p = cc

trap_handler-IsSettled_example :
    IsSettled (trap_handler any_text [] 8 0 528 trapping).1
    × (Answers (parse_cause 8) (trapping.frames 528).a7
        → Returns (trap_handler any_text [] 8 0 528 trapping).0)
trap_handler-IsSettled_example =
    trap_handler-IsSettled any_text [] 8 0 528 trapping (λ e. client_not_idle) (omega arith)
      trapping-IsSettled

-- The client goes on with other registers, and then asks for its pid.
abbrev asking : Kernel
asking = record trapping {
  frames = λ a. record empty_frame { a7 = 5 };
  phys = record trapping.phys { mem = trapping.phys.mem };
  plic = trapping.plic;
}

abbrev asks : Runs any_text [] trapping (trap_handler any_text [] 8 0 528 asking).1
asks =
    trap 8 0 528 (user (λ a. record empty_frame { a7 = 5 }) trapping.phys.mem trapping.plic start)
      (λ e. client_not_idle) (omega arith)

one_runs_example :
    (◌≡◌ {A = ℕ} 2 2) × ((trap_handler any_text [] 8 0 528 asking).1.current_pid ≡ some 2)
unfolding task_at trap_handler parse_cause on_trap handle dispatch
one_runs_example =
    one_runs any_text [] trapping (trap_handler any_text [] 8 0 528 asking).1 2 2 busy_client
      busy_client trapping-IsSettled asks refl refl refl refl
