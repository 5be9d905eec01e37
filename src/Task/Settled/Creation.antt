-- ===== src/Task/Settled/Creation.antt =====
-- `replace_current` and `sbrk` of src/kernel/task.rs and `exec` of src/kernel/exec.rs keep the
-- invariant of every trap.
use nek_os.Base.{
  ℕ, ◌+◌, ◌||◌, some, List, ltb, opt_eq, ◌≡◌, refl, sym, ap, ◌∙◌, inl, inr, arith, Bool-cases,
  Option-cases,
}
use native.Mathlib.Decide.{ℕ_discrete}
use nek_os.Initrd.{Entry}
use nek_os.Task.{Task, Kernel, running, task_at, update_at, idle_pid, heap_limit}
use nek_os.Task.Space.{align_up}
use nek_os.Task.Create.{Image, checked_heap_base, bad_heap_base, set_phys}
use nek_os.Task.Fork.{replaced, replace_current, checked_add_signed, resize, sbrk}
use nek_os.Task.Table.{runnable}
use nek_os.Task.Runnable.{idle_awake}
use nek_os.Task.Sound.{update-IsConsistent}
use nek_os.Task.Keep.{current_task}
use nek_os.Task.Everyone.{alike}
use nek_os.Task.Slots.{at_self, at_other}
use nek_os.Task.Leave.{current_index-found}
use nek_os.Task.Quiet.{update-Quiet}
use nek_os.Task.Settled.{IsSettled, same-IsSettled, Quiet-IsSettled}
use nek_os.Exec.{load, exec}

-- A task changes, but not its pid, its state or what it waits for.
pub kept-IsSettled :
    (k k' : Kernel) (i : ℕ) (f : Task → Task) (t : Task)
    → task_at i k.tasks ≡ some t
    → ((u : Task)
        → ((f u).pid ≡ u.pid) × ((f u).state ≡ u.state) × ((f u).waiting_for ≡ u.waiting_for))
    → k'.tasks ≡ update_at i f k.tasks
    → k'.current_pid ≡ k.current_pid
    → k'.runnable_count ≡ k.runnable_count
    → k'.endpoints ≡ k.endpoints
    → k'.next_pid ≡ k.next_pid
    → IsSettled k
    → IsSettled k'
kept-IsSettled k k' i f t p keeps a b c d e v =
    let w = v.sound.consistent in
    Quiet-IsSettled k k'
      (update-Quiet k k' i f (λ u. (keeps u).0) (λ x u q r. ((keeps u).1 ∙ r.0, (keeps u).2 ∙ r.1))
        a d e)
      (record {
        consistent =
            update-IsConsistent k k' i f t w p (λ u. (keeps u).0)
              (λ z. rw ((keeps t).1) (idle_awake k.tasks i t w.table p z)) a
              (same_count (alike t (f t) (keeps t).0 (keeps t).1))
              (λ r. b ∙ w.only_current i t p (sym (keeps t).1 ∙ r))
              (λ j u ne q s. b ∙ w.only_current j u q s);
        current_runs = runs v.sound.current_runs;
      })
      v
  where
    same_count :
        runnable (f t) ≡ runnable t
        → k'.runnable_count + runnable t ≡ k.runnable_count + runnable (f t)
    same_count h = omega (arith, c)

    runs :
        (j : ℕ) × (u : Task) × (task_at j k.tasks ≡ some u)
          × (k.current_pid ≡ some u.pid)
          × (u.state ≡ running)
        → (j : ℕ) × (u : Task) × (task_at j k'.tasks ≡ some u)
          × (k'.current_pid ≡ some u.pid)
          × (u.state ≡ running)
    runs (j, u, q, g, r) = elim (ℕ_discrete i j) [
      | no ne ↦ (j, u, rw a (at_other i j f k.tasks ne ∙ q), b ∙ g, r)
      | yes same ↦
          let qi : task_at i k.tasks ≡ some u = ap (λ (x : ℕ). task_at x k.tasks) same ∙ q in
          (
            i,
            f u,
            rw a (at_self i f k.tasks u qi),
            b ∙ g ∙ ap some (sym (keeps u).0),
            (keeps u).1 ∙ r,
          )
    ]

-- `sbrk` keeps the invariant on every branch.
pub sbrk-IsSettled : (increment : ℕ) (k : Kernel) → IsSettled k → IsSettled (sbrk increment k).1
unfolding sbrk
sbrk-IsSettled increment k v =
    let (i, q) = current_index-found k v.sound in
    let (t, p, _, _) = current_task k i v.sound q in
    elim (Bool-cases (opt_eq k.current_pid (some idle_pid))) [
      | inl h ↦ rw (h, sbrk) v
      | inr h ↦ elim (Option-cases (checked_add_signed t.heap_end increment)) [
        | inl n ↦ rw (h, sbrk, q, p, n) v
        | inr (new_end, n) ↦ elim (Bool-cases (ltb new_end t.heap_base || ltb heap_limit new_end)) [
          | inl o ↦ rw (h, sbrk, q, p, n, o) v
          | inr o ↦ elim (Option-cases (align_up t.heap_end)) [
            | inl a ↦ rw (h, sbrk, q, p, n, o, a) v
            | inr (old_mapped_end, a) ↦ elim (Option-cases (align_up new_end)) [
              | inl b ↦ rw (h, sbrk, q, p, n, o, a, b) v
              | inr (new_mapped_end, b) ↦
                  elim (Option-cases (resize t.pagetable old_mapped_end new_mapped_end k.phys).0) [
                    | inl r ↦
                        rw (h, sbrk, q, p, n, o, a, b, r)
                          (same-IsSettled k _ refl refl refl refl refl v)
                    | inr (u, r) ↦
                        rw (h, sbrk, q, p, n, o, a, b, r)
                          (kept-IsSettled k _ i (λ x. record x { heap_end = new_end }) t p
                            (λ x. (refl, refl, refl)) refl refl refl refl refl v)
                  ]
            ]
          ]
        ]
      ]
    ]

pub replace_current-IsSettled :
    (m : Image) (tf : ℕ) (k : Kernel) → IsSettled k → IsSettled (replace_current m tf k).1
unfolding replace_current
replace_current-IsSettled m tf k v =
    let (i, q) = current_index-found k v.sound in
    let (t, p, _, _) = current_task k i v.sound q in
    elim (Option-cases (checked_heap_base m)) [
      | inl b ↦ rw (b, replace_current) v
      | inr (heap_base, b) ↦ elim (Bool-cases (bad_heap_base heap_base)) [
        | inl h ↦ rw (b, replace_current, h) v
        | inr h ↦
            rw (b, replace_current, h, q, p)
              (kept-IsSettled k _ i (replaced m heap_base) t p (λ x. (refl, refl, refl)) refl refl
                refl refl refl v)
      ]
    ]

-- `exec` keeps the invariant, whether the image loads or not.
pub exec-IsSettled :
    (files : List Entry) (name : List ℕ) (tf : ℕ) (k : Kernel)
    → IsSettled k
    → IsSettled (exec files name tf k).1
unfolding exec
exec-IsSettled files name tf k v = elim (Option-cases (load files name k.phys).0) [
  | inl q ↦ rw (q, exec) (same-IsSettled k _ refl refl refl refl refl v)
  | inr (m, q) ↦
      rw (q, exec)
        (replace_current-IsSettled m tf (set_phys (load files name k.phys).1 k)
          (same-IsSettled k _ refl refl refl refl refl v))
]
