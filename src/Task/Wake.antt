-- ===== src/Task/Wake.antt =====
-- What `exit_current` of src/kernel/task.rs does to a parent that waits for the task.
use nek_os.Base.{
  ℕ, true, ◌&&◌, Option, none, some, and_then, ◌≡◌, refl, sym, ap, ◌∙◌, ◌≢◌, arith, ==_refl,
}
use nek_os.Trap.{TrapFrame}
use nek_os.Task.{
  Task, Table, Kernel, child, ready, running, sleeping, zombie, position, task_at, update_at,
  update_all, has_pid, write_frame, current_index, is_sleeping, sign_extend, one_more,
}
use nek_os.Task.Exit.{
  orphan, make_zombie, awaken, detach, detach_child, wake_parent, leave, waits_for_child,
}
use nek_os.Task.Runnable.{IsSound}
use nek_os.Task.Slots.{
  SamePids, SamePids-update_at, SamePids-update_all, found_by_pid, at_self, at_other, at_all,
}
use nek_os.Task.Everyone.{orphan-keeps}

detach_child_lem :
    (pid i : ℕ) (ts : Table)
    → position (has_pid pid) ts ≡ some i
    → detach_child pid ts ≡ update_at i detach ts
unfolding detach_child
detach_child_lem pid i ts q = rw (q, detach_child) refl

abbrev woken_state : ℕ → ℕ → ℕ → Task → Kernel → Kernel
woken_state child_pid j code q k = record k {
  tasks = detach_child child_pid (update_at j awaken k.tasks);
  frames =
      write_frame k.frames q.trap_frame (record (k.frames q.trap_frame) { a0 = sign_extend code });
  runnable_count = one_more k.runnable_count;
}

wake_parent_lem :
    (k : Kernel) (child_pid parent_pid code j : ℕ) (q : Task)
    → position (has_pid parent_pid) k.tasks ≡ some j
    → task_at j k.tasks ≡ some q
    → (is_sleeping q.state && waits_for_child child_pid q.waiting_for) ≡ true
    → wake_parent child_pid parent_pid code k ≡ woken_state child_pid j code q k
unfolding wake_parent
wake_parent_lem k child_pid parent_pid code j q a b c = rw (a, wake_parent, b, c) refl

-- The exiting task's slot, and its parent's.
pub record Waits (k : Kernel) (i : ℕ) (t : Task) (j : ℕ) (p : Task) : Type 0 where
  pub exiting : task_at i k.tasks ≡ some t
  pub is_current : k.current_pid ≡ some t.pid
  pub parent : t.parent_pid ≡ some p.pid
  pub waiting : task_at j k.tasks ≡ some p
  pub asleep : p.state ≡ sleeping
  pub channel : p.waiting_for ≡ some (child t.pid)

-- The parent after the exit: ready, with the exit code, and the child without a parent, so that the
-- next `schedule` frees it.
pub record Told (code : ℕ) (k k' : Kernel) (i : ℕ) (t : Task) (j : ℕ) (p : Task) : Type 0 where
  pub parent_after : Task
  pub there : task_at j k'.tasks ≡ some parent_after
  pub same_pid : parent_after.pid ≡ p.pid
  pub same_frame : parent_after.trap_frame ≡ p.trap_frame
  pub woken : parent_after.state ≡ ready
  pub waits_no_more : parent_after.waiting_for ≡ none
  pub result : (k'.frames p.trap_frame).a0 ≡ sign_extend code
  pub other_frames : (a : ℕ) → p.trap_frame ≢ a → k'.frames a ≡ k.frames a
  pub child_after : Task
  pub dead : task_at i k'.tasks ≡ some child_after
  pub is_zombie : child_after.state ≡ zombie
  pub keeps_code : child_after.exit_code ≡ code
  pub detached : child_after.parent_pid ≡ none

apart : (k : Kernel) (i : ℕ) (t : Task) (j : ℕ) (p : Task) → IsSound k → Waits k i t j p → i ≢ j
apart k i t j p v w e =
    let (x, u, a, c, r) = v.current_runs in
    let pids : t.pid ≡ u.pid = cc (sym w.is_current ∙ c) in
    let same : i ≡ x = v.consistent.table.distinct i x t u w.exiting a pids in
    let tu : t ≡ u = cc (sym w.exiting ∙ ap (λ (y : ℕ). task_at y k.tasks) same ∙ a) in
    let tp : t ≡ p = cc (sym w.exiting ∙ ap (λ (y : ℕ). task_at y k.tasks) e ∙ w.waiting) in
    clash (sym r ∙ ap (λ (y : Task). y.state) (sym tu ∙ tp) ∙ w.asleep)
  where
    clash : running ≡ sleeping → ⊥
    clash h = cc

orphan-same :
    (pid : ℕ) (t : Task)
    → ((orphan pid t).trap_frame ≡ t.trap_frame)
      × ((orphan pid t).waiting_for ≡ t.waiting_for)
      × ((orphan pid t).exit_code ≡ t.exit_code)
orphan-same pid t = ground arith

abbrev die : ℕ → Task → Task
die code u = record u { state = zombie; exit_code = code }

-- The table when the current task has become a zombie.
abbrev after : ℕ → ℕ → ℕ → Table → Table
after code i pid ts = update_all (orphan pid) (update_at i (die code) ts)

after-SamePids : (code i pid : ℕ) (ts : Table) → SamePids ts (after code i pid ts)
after-SamePids code i pid ts =
    SamePids-update_all (orphan pid) ts (update_at i (die code) ts) (orphan-keeps pid)
      (SamePids-update_at i (die code) ts ts (λ u. refl) (λ x u e. (u, e, refl)))

guard :
    (q : Task) (pid : ℕ)
    → q.state ≡ sleeping
    → q.waiting_for ≡ some (child pid)
    → (is_sleeping q.state && waits_for_child pid q.waiting_for) ≡ true
guard q pid s c = rw (s, c) (==_refl pid)

written : (m : ℕ → TrapFrame) (a b : ℕ) (f : TrapFrame) → a ≡ b → write_frame m a f b ≡ f
written m a b f e = ground arith

unwritten : (m : ℕ → TrapFrame) (a b : ℕ) (f : TrapFrame) → a ≢ b → write_frame m a f b ≡ m b
unwritten m a b f n = ground arith

module _ (code : ℕ) (k : Kernel) (i : ℕ) (t : Task) (j : ℕ) (p : Task) (v : IsSound k)
    (w : Waits k i t j p) where
  abbrev told : Task
  told = orphan t.pid p

  parent_there : task_at j (after code i t.pid k.tasks) ≡ some told
  parent_there =
      at_all j (orphan t.pid) (update_at i (die code) k.tasks) p
        (at_other i j (die code) k.tasks (apart k i t j p v w) ∙ w.waiting)

  child_there : task_at i (after code i t.pid k.tasks) ≡ some (orphan t.pid (die code t))
  child_there =
      at_all i (orphan t.pid) (update_at i (die code) k.tasks) (die code t)
        (at_self i (die code) k.tasks t w.exiting)

  leave-woken : leave code k ≡ woken_state t.pid j code told (make_zombie i t.pid code k)
  unfolding leave make_zombie
  leave-woken =
      let index : current_index k ≡ some i =
        ap (λ (o : Option ℕ). and_then o (λ pid. position (has_pid pid) k.tasks)) w.is_current
        ∙ found_by_pid k.tasks k.tasks i t.pid t v.consistent.table (λ x u e. (u, e, refl))
            w.exiting refl in
      rw (index, leave, w.exiting, w.parent)
        (wake_parent_lem (make_zombie i t.pid code k) t.pid p.pid code j told
          (found_by_pid k.tasks (after code i t.pid k.tasks) j p.pid told v.consistent.table
            (after-SamePids code i t.pid k.tasks) parent_there ((orphan-keeps t.pid p).0))
          parent_there
          (guard told t.pid ((orphan-keeps t.pid p).1 ∙ w.asleep)
            ((orphan-same t.pid p).1 ∙ w.channel)))

  detached_table :
      detach_child t.pid (update_at j awaken (after code i t.pid k.tasks))
      ≡ update_at i detach (update_at j awaken (after code i t.pid k.tasks))
  detached_table = detach_child_lem t.pid i (update_at j awaken (after code i t.pid k.tasks)) (
      found_by_pid k.tasks (update_at j awaken (after code i t.pid k.tasks)) i t.pid
        (orphan t.pid (die code t)) v.consistent.table
        (SamePids-update_at j awaken k.tasks (after code i t.pid k.tasks) (λ u. refl)
          (after-SamePids code i t.pid k.tasks))
        (at_other j i awaken (after code i t.pid k.tasks) (λ e. apart k i t j p v w (sym e))
          ∙ child_there)
        ((orphan-keeps t.pid (die code t)).0))

  woken-Told : Told code k (woken_state t.pid j code told (make_zombie i t.pid code k)) i t j p
  unfolding make_zombie
  woken-Told = record {
    parent_after = awaken told;
    there =
        ap (task_at j) detached_table
        ∙ at_other i j detach (update_at j awaken (after code i t.pid k.tasks))
            (apart k i t j p v w)
        ∙ at_self j awaken (after code i t.pid k.tasks) told parent_there;
    same_pid = (orphan-keeps t.pid p).0;
    same_frame = (orphan-same t.pid p).0;
    woken = refl;
    waits_no_more = refl;
    result =
        ap (λ (f : TrapFrame). f.a0)
          (written k.frames told.trap_frame p.trap_frame _ ((orphan-same t.pid p).0));
    other_frames =
        λ b n. unwritten k.frames told.trap_frame b _ (λ e. n (sym ((orphan-same t.pid p).0) ∙ e));
    child_after = detach (orphan t.pid (die code t));
    dead =
        ap (task_at i) detached_table
        ∙ at_self i detach (update_at j awaken (after code i t.pid k.tasks))
            (orphan t.pid (die code t))
            (at_other j i awaken (after code i t.pid k.tasks) (λ e. apart k i t j p v w (sym e))
              ∙ child_there);
    is_zombie = (orphan-keeps t.pid (die code t)).1;
    keeps_code = (orphan-same t.pid (die code t)).2;
    detached = refl;
  }

-- A task that exits while its parent sleeps in `waitpid` for it wakes the parent and hands it the
-- exit code, sign-extended, and stays as a zombie without a parent; no other frame changes.
pub leave-Told :
    (code : ℕ) (k : Kernel) (i : ℕ) (t : Task) (j : ℕ) (p : Task)
    → IsSound k
    → Waits k i t j p
    → Told code k (leave code k) i t j p
leave-Told code k i t j p v w = rw (leave-woken code k i t j p v w) (woken-Told code k i t j p v w)
