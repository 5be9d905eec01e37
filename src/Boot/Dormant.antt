-- ===== src/Boot/Dormant.antt =====
-- The tasks at boot, src/main.rs, before the first one is entered: the idle task of an empty table.
use nek_os.Base.{
  ℕ, zero, suc, ◌+◌, ◌≤◌, ◌<◌, ◌^◌, Option, none, some, ◌∷◌, replicate, M, ◌>>=◌, ◌≡◌, refl, sym,
  ap, ◌∙◌, ◌⊎◌, inl, inr, arith, Option-cases,
}
use nek_os.PageTable.{Phys}
use nek_os.Trap.{TrapFrame}
use nek_os.Ipc.{Endpoint, max_endpoints}
use nek_os.Task
use nek_os.Task.{
  Task, Table, Kernel, TaskState, ready, running, sleeping, position, empty_slot, task_at,
  update_at, has_pid, idle_pid, one_more,
}
use nek_os.Task.Space.{init_context}
use nek_os.Task.Create.{idle_space, install_idle, create_idle}
use nek_os.Task.Message.{endpoint_at}
use nek_os.Task.Table.{count_runnable, runnable}
use nek_os.Task.Settled.{IsSteady, same-IsSteady}
use nek_os.Task.Settled.Forking.{Born, origin, born-IsConsistent, born-IsOrderly}

-- Before the first task is entered all tasks are ready.
pub record IsDormant (k : Kernel) : Type 0 where
  pub steady : IsSteady k
  pub no_current : k.current_pid ≡ none
  pub all_ready : (i : ℕ) (t : Task) → task_at i k.tasks ≡ some t → t.state ≡ ready

-- Dormant, with `n` pids given at most.
abbrev pub Gave : ℕ → Kernel → Type 0
Gave n k = IsDormant k × (k.next_pid ≤ n)

-- A result that `P` holds of, or a failure.
abbrev pub Holds : {A : Type 0} → (A → Kernel → Type 0) → Option A × Kernel → Type 0
Holds {A} P r = (r.0 ≡ none) ⊎ ((a : A) × (r.0 ≡ some a) × P a r.1)

pub then-Holds :
    {A B : Type 0} (P : A → Kernel → Type 0) (Q : B → Kernel → Type 0) (m : M Kernel A)
    (f : A → M Kernel B) (k : Kernel)
    → Holds P (m k)
    → ((a : A) (k' : Kernel) → P a k' → Holds Q (f a k'))
    → Holds Q ((m >>= f) k)
then-Holds P Q m f k (inl e) h = rw e (inl refl)
then-Holds P Q m f k (inr (a, e, p)) h = rw e (h a (m k).1 p)

pub same-IsDormant :
    (k k' : Kernel)
    → k'.tasks ≡ k.tasks
    → k'.current_pid ≡ k.current_pid
    → k'.runnable_count ≡ k.runnable_count
    → k'.endpoints ≡ k.endpoints
    → k'.next_pid ≡ k.next_pid
    → IsDormant k
    → IsDormant k'
same-IsDormant k k' a b c d e v = record {
  steady = same-IsSteady k k' a b c d e v.steady;
  no_current = b ∙ v.no_current;
  all_ready = λ i t p. v.all_ready i t (rw a at p);
}

-- A new task keeps the table dormant.
pub Born-Gave :
    (n i : ℕ) (c : Task) (k k' : Kernel)
    → Born i c k k'
    → n + 1 < 2 ^ 32
    → Gave n k
    → Gave (n + 1) k'
Born-Gave n i c k k' b small (v, most) = (
  record {
    steady = record {
      consistent = born-IsConsistent i c k k' b v.steady.orderly v.steady.consistent;
      orderly = born-IsOrderly i c k k' b (omega (arith, most)) v.steady.orderly;
    };
    no_current = b.current ∙ v.no_current;
    all_ready = λ j t p. elim (origin i c k k' b j t p) [
      | inl (ij, tc) ↦ ap (λ (x : Task). x.state) tc ∙ b.waits
      | inr q ↦ v.all_ready j t q
    ];
  },
  next b.next_pid most,
)
  where
    next : {x y : ℕ} → x ≡ one_more y → y ≤ n → x ≤ n + 1
    next p q = omega arith

no_task : (n i : ℕ) (u : Task) → task_at i (replicate n none) ≡ some u → ⊥
unfolding task_at
no_task zero i u p = cc
no_task (suc n) zero u p = cc
no_task (suc n) (suc i) u p = no_task n i u p

only_first :
    (t u : Task) (n i : ℕ) → task_at i (some t ∷ replicate n none) ≡ some u → (i ≡ 0) × (u ≡ t)
unfolding task_at
only_first t u n zero e = (refl, cc)
only_first t u n (suc i) e = absurd (no_task n i u e)

no_endpoint : (n e : ℕ) (ep : Endpoint) → endpoint_at e (replicate n none) ≡ some ep → ⊥
no_endpoint zero e ep p = cc
no_endpoint (suc n) zero ep p = cc
no_endpoint (suc n) (suc e) ep p = no_endpoint n e ep p

-- The first task of an empty table is the idle task.
idle-Gave :
    (idle : Task) (k : Kernel)
    → idle.pid ≡ idle_pid
    → idle.state ≡ ready
    → k.tasks ≡ some idle ∷ replicate 15 none
    → k.current_pid ≡ none
    → k.runnable_count ≡ 0
    → k.endpoints ≡ replicate max_endpoints none
    → k.next_pid ≡ 1
    → Gave 1 k
unfolding count_runnable runnable
idle-Gave idle k z r a b c d e = (
  record {
    steady = record {
      consistent = record {
        table = rw a (record {
          slots = omega arith;
          distinct =
              λ i j t u p q h. (only_first idle t 15 i p).0 ∙ sym (only_first idle u 15 j q).0;
          idle = (0, idle, unfold task_at in refl, z, inl r);
        });
        counted = rw (a, c, z) refl;
        only_current = λ i t p s.
            let (_, same) = only_first idle t 15 i (rw a at p) in
            cc (sym s ∙ ap (λ (x : Task). x.state) same ∙ r);
      };
      orderly = record {
        fresh = λ i t p.
            let (_, same) = only_first idle t 15 i (rw a at p) in
            zero_below (ap (λ (x : Task). x.pid) same ∙ z) e;
        waiting = λ x ep p w. absurd (no_endpoint max_endpoints x ep (rw d at p));
      };
    };
    no_current = b;
    all_ready = λ i t p.
        let (_, same) = only_first idle t 15 i (rw a at p) in ap (λ (x : Task). x.state) same ∙ r;
  },
  omega (arith, e),
)
  where
    zero_below : {x y : ℕ} → x ≡ idle_pid → y ≡ 1 → x < y
    zero_below p q = omega arith

pub create_idle-Holds :
    (entry : ℕ) (s : Phys) (frames : ℕ → TrapFrame) (pt : ℕ) (regs : ℕ → ℕ)
    → Holds (λ pid. Gave 1) (create_idle entry (Task.new s frames pt regs))
unfolding create_idle Task.new position empty_slot install_idle init_context
create_idle-Holds entry s frames pt regs = elim (Option-cases (idle_space s).0) [
  | inl q ↦ rw q (inl refl)
  | inr ((kernel_stack, pagetable), q) ↦
      rw q (inr (0, refl, idle-Gave _ _ refl refl refl refl refl refl refl))
]
