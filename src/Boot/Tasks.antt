-- ===== src/Boot/Tasks.antt =====
-- What the boot of src/main.rs does to the tasks: loading, granting the UART, naming the servers and
-- entering the first one.
use nek_os.Base.{
  ℕ, ◌+◌, ◌<◌, ◌^◌, ◌||◌, some, List, is_some, is_none, leb, and_then, ◌≡◌, refl, sym, ap, ◌∙◌, inl,
  inr, arith, Bool-cases, Option-cases, ==_iff,
}
use nek_os.PageTable.{alloc_page, set_flags, pte_r, pte_w, pte_u}
use nek_os.Ipc.{max_endpoints}
use nek_os.Initrd.{Entry}
use nek_os.Task.{Kernel, position, empty_slot, task_at, update_at, has_pid}
use nek_os.Task.Space.{init_context}
use nek_os.Task.Sched.{set_running, enter_task}
use nek_os.Task.Create.{
  Image, checked_heap_base, bad_heap_base, install_user, create_user_image, set_phys,
}
use nek_os.Task.Message.{register_endpoint, endpoint_at}
use nek_os.Task.Uart.{grant_uart}
use nek_os.Task.Table.{position-Found}
use nek_os.Task.Sound.{update-IsConsistent, set_running-runnable}
use nek_os.Task.Slots.{at_self}
use nek_os.Task.Quiet.{SamePids-refl, SleepOn-refl}
use nek_os.Task.Calm.{run-Quiet}
use nek_os.Task.Settled.{IsSettled, Quiet-IsOrderly, endpoint-IsOrderly}
use nek_os.Task.Settled.Forking.{empty_slot-free}
use nek_os.Exec.{load, spawn}
use nek_os.Page.{page_size}
use nek_os.Base.{bit_or}
use nek_os.Task.Everyone.{same-IsConsistent}
use nek_os.Boot.Dormant.{Gave, Holds, same-IsDormant, Born-Gave}

create_user_image-Holds :
    (n : ℕ) (m : Image) (k : Kernel)
    → n + 1 < 2 ^ 32
    → Gave n k
    → Holds (λ pid. Gave (n + 1)) (create_user_image m k)
unfolding create_user_image install_user init_context
create_user_image-Holds n m k small (v, most) = elim (Option-cases (checked_heap_base m)) [
  | inl b ↦ rw (b, create_user_image) (inl refl)
  | inr (heap_base, b) ↦ elim (Bool-cases (bad_heap_base heap_base)) [
    | inl h ↦ rw (b, create_user_image, h) (inl refl)
    | inr h ↦ elim (Option-cases (empty_slot k.tasks)) [
      | inl q ↦ rw (b, create_user_image, h, q) (inl refl)
      | inr (i, q) ↦ elim (Option-cases (alloc_page k.phys).0) [
        | inl o ↦ rw (b, create_user_image, h, q, o) (inl refl)
        | inr (kernel_stack, o) ↦
            let (free, room) = empty_slot-free k.tasks i q in
            rw (b, create_user_image, h, q, o)
              (inr (
                _,
                refl,
                Born-Gave n i _ k _
                    (record {
                      free = free;
                      room = room;
                      pid = refl;
                      waits = refl;
                      tasks = refl;
                      current = refl;
                      counted = refl;
                      endpoints = refl;
                      next_pid = refl;
                    })
                    small (v, most),
              ))
      ]
    ]
  ]
]

pub spawn-Holds :
    (n : ℕ) (files : List Entry) (name : List ℕ) (k : Kernel)
    → n + 1 < 2 ^ 32
    → Gave n k
    → Holds (λ pid. Gave (n + 1)) (spawn files name k)
unfolding spawn
spawn-Holds n files name k small (v, most) = elim (Option-cases (load files name k.phys).0) [
  | inl q ↦ rw (q, spawn) (inl refl)
  | inr (m, q) ↦
      rw (q, spawn)
        (create_user_image-Holds n m (set_phys (load files name k.phys).1 k) small
          (same-IsDormant k _ refl refl refl refl refl v, most))
]

pub grant_uart-Holds : (n pid : ℕ) (k : Kernel) → Gave n k → Holds (λ u. Gave n) (grant_uart pid k)
unfolding grant_uart
grant_uart-Holds n pid k (v, most) = elim (Bool-cases (is_some k.uart_owner)) [
  | inl h ↦ rw (h, grant_uart) (inl refl)
  | inr h ↦
      elim (Option-cases (and_then (position (has_pid pid) k.tasks) (λ i. task_at i k.tasks))) [
        | inl q ↦ rw (h, grant_uart, q) (inl refl)
        | inr (t, q) ↦
            elim (Option-cases
              (set_flags t.pagetable 0x1000_0000 page_size (bit_or (bit_or pte_r pte_w) pte_u)
                k.phys).0) [
                  | inl r ↦ rw (h, grant_uart, q, r) (inl refl)
                  | inr (u, r) ↦
                      rw (h, grant_uart, q, r)
                        (inr (tt, refl, (same-IsDormant k _ refl refl refl refl refl v, most)))
                ]
      ]
]

-- A new endpoint has no receiver waiting.
pub register_endpoint-Holds :
    (n endpoint owner : ℕ) (k : Kernel)
    → Gave n k
    → Holds (λ u. Gave n) (register_endpoint endpoint owner k)
unfolding register_endpoint
register_endpoint-Holds n endpoint owner k (v, most) =
    elim (Bool-cases (leb max_endpoints endpoint || is_some (endpoint_at endpoint k.endpoints))) [
      | inl h ↦ rw (h, register_endpoint) (inl refl)
      | inr h ↦ elim (Bool-cases (is_none (position (has_pid owner) k.tasks))) [
        | inl q ↦ rw (h, register_endpoint, q) (inl refl)
        | inr q ↦
            rw (h, register_endpoint, q)
              (inr (
                tt,
                refl,
                (
                  record {
                    steady = record {
                      consistent = same-IsConsistent k _ refl refl refl v.steady.consistent;
                      orderly =
                          endpoint-IsOrderly endpoint _ k _ (SamePids-refl k.tasks)
                            (SleepOn-refl (some endpoint) k.tasks) refl refl (λ w. cc)
                            v.steady.orderly;
                    };
                    no_current = v.no_current;
                    all_ready = v.all_ready;
                  },
                  most,
                ),
              ))
      ]
    ]

-- The first task runs.
pub enter_task-Holds :
    (n pid : ℕ) (k : Kernel) → Gave n k → Holds (λ t. IsSettled) (enter_task pid k)
unfolding enter_task
enter_task-Holds n pid k (v, most) = elim (Option-cases (position (has_pid pid) k.tasks)) [
  | inl q ↦ rw (q, enter_task) (inl refl)
  | inr (i, q) ↦
      let f = position-Found (has_pid pid) k.tasks i q in
      let k' : Kernel = record k {
        tasks = update_at i set_running k.tasks;
        current_pid = some pid;
      } in
      let mine : f.task.pid ≡ pid = (==_iff f.task.pid pid).0 f.holds in
      let is_ready = v.all_ready i f.task f.here in
      rw (q, enter_task)
        (inr (
          f.task,
          f.here,
          record {
            sound = record {
              consistent =
                  update-IsConsistent k k' i set_running f.task v.steady.consistent f.here
                    (λ u. refl) (λ z. inr refl) refl
                    (omega (arith, set_running-runnable f.task (inl is_ready)))
                    (λ r. ap some (sym mine)) (λ j u ne p r. cc (sym r ∙ v.all_ready j u p));
              current_runs = (
                i,
                set_running f.task,
                at_self i set_running k.tasks f.task f.here,
                ap some (sym mine),
                refl,
              );
            };
            orderly =
                Quiet-IsOrderly k k' (run-Quiet k k' i f.task f.here (inl is_ready) refl refl refl)
                  v.steady.orderly;
          },
        ))
]
