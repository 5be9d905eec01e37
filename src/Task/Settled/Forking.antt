-- ===== src/Task/Settled/Forking.antt =====
-- `fork` of src/kernel/task.rs keeps the invariant of every trap.
use nek_os.Base.{
  ℕ, zero, suc, ◌+◌, ◌<◌, ◌≤◌, ◌^◌, ◌⊎◌, none, some, [], ◌∷◌, set, ◌==◌, if◌then◌else◌, opt_eq,
  length, length-set, ◌≡◌, refl, sym, ap, ◌∙◌, ◌≢◌, inl, inr, arith, Bool-cases, Option-cases,
}
use native.Mathlib.Decide.{ℕ_discrete}
use nek_os.Task.{Task, Table, Kernel, ready, empty_slot, task_at, idle_pid, one_more}
use nek_os.Task.Space.{init_context}
use nek_os.Task.Create.{set_phys}
use nek_os.Task.Fork.{fork, fork_space, install_child}
use nek_os.Task.Table.{runnable, count_runnable, count_runnable-le}
use nek_os.Task.Runnable.{IsTable, IsConsistent}
use nek_os.Task.Message.{endpoint_at}
use nek_os.Task.Keep.{current_task, same-IsSound}
use nek_os.Task.Leave.{current_index-found}
use nek_os.Task.Settled.{IsOrderly, IsSettled, same-IsSettled}

pub empty_slot-free :
    (ts : Table) (i : ℕ) → empty_slot ts ≡ some i → (task_at i ts ≡ none) × (i < length ts)
unfolding empty_slot task_at
empty_slot-free [] i e = cc
empty_slot-free (none ∷ ts) zero e = (refl, omega arith)
empty_slot-free (none ∷ ts) (suc i) e = cc
empty_slot-free (some t ∷ ts) i e = elim (Option-cases (empty_slot ts)) [
  | inl q ↦ cc (rw q at e)
  | inr (j, q) ↦
      let (free, small) = empty_slot-free ts j q in
      let s : i ≡ suc j = cc (rw q at e) in rw s (free, omega (arith, small))
]

task_at-set :
    (i j : ℕ) (c : Task) (ts : Table)
    → i < length ts
    → task_at j (set ts i (some c)) ≡ (if i == j then some c else task_at j ts)
unfolding task_at
task_at-set i j c [] h = absurd (omega arith)
task_at-set zero zero c (s ∷ ts) h = refl
task_at-set zero (suc j) c (s ∷ ts) h = ground arith
task_at-set (suc i) zero c (s ∷ ts) h = ground arith
task_at-set (suc i) (suc j) c (s ∷ ts) h = ground (arith, task_at-set i j c ts (omega arith))

count_runnable-set :
    (i : ℕ) (c : Task) (ts : Table)
    → task_at i ts ≡ none
    → i < length ts
    → count_runnable (set ts i (some c)) ≡ runnable c + count_runnable ts
unfolding task_at count_runnable
count_runnable-set i c [] e h = absurd (omega arith)
count_runnable-set zero c (none ∷ ts) e h = refl
count_runnable-set zero c (some u ∷ ts) e h = cc
count_runnable-set (suc i) c (none ∷ ts) e h = count_runnable-set i c ts e (omega arith)
count_runnable-set (suc i) c (some u ∷ ts) e h =
    omega (arith, count_runnable-set i c ts e (omega arith))

-- The child in slot `i`.
pub record Born (i : ℕ) (c : Task) (k k' : Kernel) : Type 0 where
  pub free : task_at i k.tasks ≡ none
  pub room : i < length k.tasks
  pub pid : c.pid ≡ k.next_pid
  pub waits : c.state ≡ ready
  pub tasks : k'.tasks ≡ set k.tasks i (some c)
  pub current : k'.current_pid ≡ k.current_pid
  pub counted : k'.runnable_count ≡ one_more k.runnable_count
  pub endpoints : k'.endpoints ≡ k.endpoints
  pub next_pid : k'.next_pid ≡ one_more k.next_pid

module _ (i : ℕ) (c : Task) (k k' : Kernel) (b : Born i c k k') where
  at_child : task_at i k'.tasks ≡ some c
  at_child = rw b.tasks (ground (arith, task_at-set i i c k.tasks b.room))

  -- A task of before is where it was.
  stays : (j : ℕ) (t : Task) → task_at j k.tasks ≡ some t → task_at j k'.tasks ≡ some t
  stays j t p = elim (ℕ_discrete i j) [
    | yes same ↦ cc (sym b.free ∙ ap (λ (x : ℕ). task_at x k.tasks) same ∙ p)
    | no ne ↦ rw b.tasks (ground (arith, task_at-set i j c k.tasks b.room))
  ]

  -- A task is the child or one of before.
  pub origin :
      (j : ℕ) (t : Task)
      → task_at j k'.tasks ≡ some t
      → ((i ≡ j) × (t ≡ c)) ⊎ (task_at j k.tasks ≡ some t)
  origin j t p =
      let q = rw b.tasks at p in
      elim (ℕ_discrete i j) [
        | yes same ↦ inl (same, ground (arith, task_at-set i j c k.tasks b.room))
        | no ne ↦ inr (ground (arith, task_at-set i j c k.tasks b.room))
      ]

  born-IsTable : IsOrderly k → IsTable k.tasks → IsTable k'.tasks
  born-IsTable o v = record {
    slots = rw b.tasks (omega (arith, length-set k.tasks i (some c), v.slots));
    distinct = λ x y t u p q h. elim (origin x t p) [
      | inl (ix, tc) ↦ elim (origin y u q) [
        | inl (iy, uc) ↦ sym ix ∙ iy
        | inr q' ↦ absurd (old u y q' (ap (λ (z : Task). z.pid) (sym tc) ∙ h))
      ]
      | inr p' ↦ elim (origin y u q) [
        | inl (iy, uc) ↦ absurd (old t x p' (ap (λ (z : Task). z.pid) (sym uc) ∙ sym h))
        | inr q' ↦ v.distinct x y t u p' q' h
      ]
    ];
    idle = let (j, t, p, z, w) = v.idle in (j, t, stays j t p, z, w);
  }
    where
      old : (u : Task) (y : ℕ) → task_at y k.tasks ≡ some u → c.pid ≡ u.pid → ⊥
      old u y q h = omega (arith, o.fresh y u q, b.pid, h)

  born-runnable : IsOrderly k → IsTable k.tasks → runnable c ≡ 1
  unfolding runnable
  born-runnable o v = let (j, t, p, z, w) = v.idle in one (up (o.fresh j t p) z)
    where
      up : {a n : ℕ} → a < n → a ≡ idle_pid → n ≢ idle_pid
      up l e f = omega arith

      one : k.next_pid ≢ idle_pid → runnable c ≡ 1
      one ne = ground (arith, b.pid, b.waits)

  pub born-IsConsistent : IsOrderly k → IsConsistent k → IsConsistent k'
  born-IsConsistent o v = record {
    table = born-IsTable o v.table;
    counted =
        sums b.counted v.counted (ap count_runnable b.tasks)
          (count_runnable-set i c k.tasks b.free b.room) (born-runnable o v.table)
          (count_runnable-le k.tasks) v.table.slots;
    only_current = λ j t p r. elim (origin j t p) [
      | inl (ij, tc) ↦ cc (sym r ∙ ap (λ (z : Task). z.state) tc ∙ b.waits)
      | inr q ↦ b.current ∙ v.only_current j t q r
    ];
  }
    where
      sums :
          {n m a s r e l : ℕ}
          → n ≡ one_more m
          → m ≡ a
          → e ≡ s
          → s ≡ r + a
          → r ≡ 1
          → a ≤ l
          → l ≤ 16
          → n ≡ e
      sums p q f g h x y = omega arith

  pub born-IsOrderly : k.next_pid + 1 < 2 ^ 32 → IsOrderly k → IsOrderly k'
  born-IsOrderly small o = record {
    fresh = λ j t p. elim (origin j t p) [
      | inl (ij, tc) ↦ last b.next_pid (ap (λ (z : Task). z.pid) tc ∙ b.pid) small
      | inr q ↦ more b.next_pid (o.fresh j t q) small
    ];
    waiting = λ e ep p w.
        let (j, t, q, z, r) = o.waiting e ep (ap (endpoint_at e) (sym b.endpoints) ∙ p) w in
        (j, t, stays j t q, z, r);
  }
    where
      last : {n m p : ℕ} → n ≡ one_more m → p ≡ m → m + 1 < 2 ^ 32 → p < n
      last f g h = omega arith

      more : {n m p : ℕ} → n ≡ one_more m → p < m → m + 1 < 2 ^ 32 → p < n
      more f g h = omega arith

  born-IsSettled : k.next_pid + 1 < 2 ^ 32 → IsSettled k → IsSettled k'
  born-IsSettled small v = record {
    sound = record {
      consistent = born-IsConsistent v.orderly v.sound.consistent;
      current_runs =
          let (j, t, p, d, r) = v.sound.current_runs in (j, t, stays j t p, b.current ∙ d, r);
    };
    orderly = born-IsOrderly small v.orderly;
  }

-- A pid that is given to no task.
skipped-IsSettled :
    (k k' : Kernel)
    → k'.tasks ≡ k.tasks
    → k'.current_pid ≡ k.current_pid
    → k'.runnable_count ≡ k.runnable_count
    → k'.endpoints ≡ k.endpoints
    → k'.next_pid ≡ one_more k.next_pid
    → k.next_pid + 1 < 2 ^ 32
    → IsSettled k
    → IsSettled k'
skipped-IsSettled k k' a b c d e small v = record {
  sound = same-IsSound k k' a b c v.sound;
  orderly = record {
    fresh = λ i t p. more e (v.orderly.fresh i t (rw a at p)) small;
    waiting = λ x ep p w.
        let (j, t, q, z, r) = v.orderly.waiting x ep (ap (endpoint_at x) (sym d) ∙ p) w in
        (j, t, rw a q, z, r);
  };
}
  where
    more : {n m p : ℕ} → n ≡ one_more m → p < m → m + 1 < 2 ^ 32 → p < n
    more f g h = omega arith

install_child-IsSettled :
    (parent : Task) (kernel_stack user_stack child_pt tf : ℕ) (k : Kernel)
    → k.next_pid + 1 < 2 ^ 32
    → IsSettled k
    → IsSettled (install_child parent kernel_stack user_stack child_pt tf k).1
unfolding install_child init_context
install_child-IsSettled parent kernel_stack user_stack child_pt tf k small v =
    elim (Option-cases (empty_slot k.tasks)) [
      | inl q ↦ rw (q, install_child) (skipped-IsSettled k _ refl refl refl refl refl small v)
      | inr (i, q) ↦
          let (free, room) = empty_slot-free k.tasks i q in
          rw (q, install_child)
            (born-IsSettled i _ k _
              (record {
                free = free;
                room = room;
                pid = refl;
                waits = refl;
                tasks = refl;
                current = refl;
                counted = refl;
                endpoints = refl;
                next_pid = refl;
              })
              small v)
    ]

-- `fork` keeps the invariant while pids do not wrap, also where it fails half-way.
pub fork-IsSettled :
    (tf : ℕ) (k : Kernel) → k.next_pid + 1 < 2 ^ 32 → IsSettled k → IsSettled (fork tf k).1
unfolding fork
fork-IsSettled tf k small v =
    let (i, q) = current_index-found k v.sound in
    let (t, p, _, _) = current_task k i v.sound q in
    elim (Bool-cases (opt_eq k.current_pid (some idle_pid))) [
      | inl h ↦ rw (h, fork) v
      | inr h ↦ elim (Option-cases (fork_space t k.phys).0) [
        | inl o ↦ rw (h, fork, q, p, o) (same-IsSettled k _ refl refl refl refl refl v)
        | inr ((kernel_stack, user_stack, child_pt), o) ↦
            let k1 : Kernel = set_phys (fork_space t k.phys).1 k in
            rw (h, fork, q, p, o)
              (install_child-IsSettled t kernel_stack user_stack child_pt tf k1 small
                (same-IsSettled k k1 refl refl refl refl refl v))
      ]
    ]
