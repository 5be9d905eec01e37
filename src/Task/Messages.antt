-- ===== src/Task/Messages.antt =====
-- `ipc_reply` of src/kernel/task.rs: who may answer whom, and what the client gets.
use nek_os.Base.{
  ℕ, Bool, true, false, ◌&&◌, Option, none, some, ◌==◌, ◌≡◌, refl, sym, ap, ◌∙◌, ◌≢◌, ◌⊎◌, inl, inr,
  arith, Bool-cases, Option-cases, ==_iff,
}
use nek_os.Trap.{TrapFrame}
use nek_os.Ipc.{Words, Endpoint}
use nek_os.Task.{
  Task, Kernel, TaskState, WaitChannel, ipc_call, ipc_recv, child, uart_rx, sleeping, position,
  task_at, has_pid, is_sleeping, one_more, update_at, write_frame,
}
use nek_os.Task.Exit.{awaken}
use nek_os.Task.Message.{reply, endpoint_at, calls_endpoint, owned_by}
use nek_os.Task.Table.{task_at-update_at}

-- The caller owns the endpoint `e` that the task `t` in slot `i` sleeps at, with a call of it.
pub record MayAnswer (client : ℕ) (k : Kernel) (i : ℕ) (t : Task) : Type 0 where
  pub slot : position (has_pid client) k.tasks ≡ some i
  pub task : task_at i k.tasks ≡ some t
  pub asleep : t.state ≡ sleeping
  pub endpoint : ℕ
  pub at : Endpoint
  pub waits : t.waiting_for ≡ some (ipc_call endpoint)
  pub known : endpoint_at endpoint k.endpoints ≡ some at
  pub owner : k.current_pid ≡ some at.owner

-- The frame of the client after the answer.
abbrev pub answered : Words → TrapFrame → TrapFrame
answered w f = record f { a0 = w.w0; a1 = w.w1; a2 = w.w2; a3 = w.w3 }

-- What an answer changes: the client alone is woken, and its frame alone gets the words.
pub record Answered (words : Words) (k k' : Kernel) (i : ℕ) (t : Task) : Type 0 where
  pub woken : task_at i k'.tasks ≡ some (awaken t)
  pub others : (j : ℕ) → i ≢ j → task_at j k'.tasks ≡ task_at j k.tasks
  pub words_given : k'.frames t.trap_frame ≡ answered words (k.frames t.trap_frame)
  pub other_frames : (a : ℕ) → t.trap_frame ≢ a → k'.frames a ≡ k.frames a
  pub counted : k'.runnable_count ≡ one_more k.runnable_count
  pub same_endpoints : k'.endpoints ≡ k.endpoints
  pub goes_on : k'.current_pid ≡ k.current_pid
  pub memory : k'.phys ≡ k.phys

calls-ipc_call :
    (o : Option WaitChannel) (e : ℕ) → calls_endpoint o ≡ some e → o ≡ some (ipc_call e)
calls-ipc_call none e h = cc
calls-ipc_call (some (ipc_call x)) e h = cc
calls-ipc_call (some (ipc_recv x)) e h = cc
calls-ipc_call (some (child x)) e h = cc
calls-ipc_call (some uart_rx) e h = cc

owned_by-at :
    (r : ℕ) (o : Option Endpoint)
    → owned_by r o ≡ true
    → (ep : Endpoint) × (o ≡ some ep) × (ep.owner ≡ r)
owned_by-at r none h = cc
owned_by-at r (some ep) h = (ep, refl, (==_iff ep.owner r).0 h)

both : (a b : Bool) → (a && b) ≡ true → (a ≡ true) × (b ≡ true)
both true true h = (refl, refl)
both true false h = cc
both false b h = cc

is_sleeping-sleeping : (s : TaskState) → is_sleeping s ≡ true → s ≡ sleeping
is_sleeping-sleeping s h = ground arith

pub write_frame-same : (m : ℕ → TrapFrame) (a : ℕ) (f : TrapFrame) → write_frame m a f a ≡ f
write_frame-same m a f = ground arith

pub write_frame-other :
    (m : ℕ → TrapFrame) (a b : ℕ) (f : TrapFrame) → a ≢ b → write_frame m a f b ≡ m b
write_frame-other m a b f n = ground arith

abbrev answer_state : Words → Kernel → ℕ → Task → Kernel
answer_state words k i t = record k {
  frames = write_frame k.frames t.trap_frame (record (k.frames t.trap_frame) {
    a0 = words.w0;
    a1 = words.w1;
    a2 = words.w2;
    a3 = words.w3;
  });
  tasks = update_at i awaken k.tasks;
  runnable_count = one_more k.runnable_count;
}

answers :
    (words : Words) (k : Kernel) (i : ℕ) (t : Task)
    → task_at i k.tasks ≡ some t
    → Answered words k (answer_state words k i t) i t
answers words k i t p = record {
  woken = ground (arith, task_at-update_at i i awaken k.tasks);
  others = λ j n. ground (arith, task_at-update_at i j awaken k.tasks);
  words_given = write_frame-same k.frames t.trap_frame _;
  other_frames = λ a n. write_frame-other k.frames t.trap_frame a _ n;
  counted = refl;
  same_endpoints = refl;
  goes_on = refl;
  memory = refl;
}

given :
    (words : Words) (k : Kernel) (i : ℕ) (t : Task) (r : Option (Unit {0}) × Kernel)
    → task_at i k.tasks ≡ some t
    → r ≡ (some tt, answer_state words k i t)
    → (r.0 ≡ some tt) × Answered words k r.1 i t
given words k i t r p e = rw e (refl, answers words k i t p)

-- What the guards of `ipc_reply` read, where the answer is allowed.
allowed :
    (client : ℕ) (k : Kernel) (r i : ℕ) (t : Task)
    → k.current_pid ≡ some r
    → position (has_pid client) k.tasks ≡ some i
    → task_at i k.tasks ≡ some t
    → (j : ℕ) → (u : Task) → MayAnswer client k j u
    → (ep : ℕ) × (calls_endpoint t.waiting_for ≡ some ep)
      × ((owned_by r (endpoint_at ep k.endpoints) && is_sleeping t.state) ≡ true)
allowed client k r i t c q p j u m =
    let same : i ≡ j = cc (sym q ∙ m.slot) in
    let tu : t ≡ u = cc (sym p ∙ ap (λ (x : ℕ). task_at x k.tasks) same ∙ m.task) in
    (
      m.endpoint,
      ap (λ (x : Task). calls_endpoint x.waiting_for) tu ∙ ap calls_endpoint m.waits,
      rw (m.known) (
          guards m.at.owner r t.state (cc (sym m.owner ∙ c))
            (ap (λ (x : Task). x.state) tu ∙ m.asleep)),
    )
  where
    guards : (o r : ℕ) (s : TaskState) → o ≡ r → s ≡ sleeping → ((o == r) && is_sleeping s) ≡ true
    guards o r s h z = ground arith

-- `ipc_reply` succeeds exactly for a client that sleeps in a call of an endpoint of the caller, and
-- then the client alone is woken with the four words in its frame; in all other cases it changes
-- nothing.
pub reply_lem :
    (client : ℕ) (words : Words) (k : Kernel)
    → ((i : ℕ) × (t : Task) × MayAnswer client k i t
        × ((reply client words k).0 ≡ some tt)
        × Answered words k (reply client words k).1 i t)
      ⊎ (((i : ℕ) (t : Task) → MayAnswer client k i t → ⊥) × (reply client words k ≡ (none, k)))
unfolding reply
reply_lem client words k = elim (Option-cases k.current_pid) [
  | inl c ↦ inr (λ i t m. never (sym c ∙ m.owner), simp (c, reply) refl)
  | inr (r, c) ↦ elim (Option-cases (position (has_pid client) k.tasks)) [
    | inl q ↦ inr (λ i t m. never (sym q ∙ m.slot), simp (c, reply, q) refl)
    | inr (i, q) ↦ elim (Option-cases (task_at i k.tasks)) [
      | inl p ↦ inr (
        λ j t m.
            never (sym p ∙ ap (λ (x : ℕ). task_at x k.tasks) (some_inj (sym q ∙ m.slot)) ∙ m.task),
        simp (c, reply, q, p) refl,
      )
      | inr (t, p) ↦ elim (Option-cases (calls_endpoint t.waiting_for)) [
        | inl w ↦ inr (
          λ j u m. never (sym w ∙ (allowed client k r i t c q p j u m).1),
          simp (c, reply, q, p, w) refl,
        )
        | inr (e, w) ↦
            elim (Bool-cases (owned_by r (endpoint_at e k.endpoints) && is_sleeping t.state)) [
              | inl h ↦
                  let (o, sl) =
                    both (owned_by r (endpoint_at e k.endpoints)) (is_sleeping t.state) h in
                  let (ep, known, mine) = owned_by-at r (endpoint_at e k.endpoints) o in
                  let done =
                    given words k i t (reply client words k) p (simp (c, reply, q, p, w, h) refl) in
                  inl (
                    i,
                    t,
                    record {
                      slot = q;
                      task = p;
                      asleep = is_sleeping-sleeping t.state sl;
                      endpoint = e;
                      at = ep;
                      waits = calls-ipc_call t.waiting_for e w;
                      known = known;
                      owner = c ∙ ap some (sym mine);
                    },
                    done.0,
                    done.1,
                  )
              | inr h ↦ inr (
                λ j u m. refuted r t e w h (allowed client k r i t c q p j u m),
                simp (c, reply, q, p, w, h) refl,
              )
            ]
      ]
    ]
  ]
]
  where
    never : {A : Type 0} {a : A} → none ≡ some a → ⊥
    never h = cc

    some_inj : {a b : ℕ} → some a ≡ some b → a ≡ b
    some_inj h = cc

    refuted :
        (r : ℕ) (t : Task) (e : ℕ)
        → calls_endpoint t.waiting_for ≡ some e
        → (owned_by r (endpoint_at e k.endpoints) && is_sleeping t.state) ≡ false
        → (ep : ℕ) × (calls_endpoint t.waiting_for ≡ some ep)
          × ((owned_by r (endpoint_at ep k.endpoints) && is_sleeping t.state) ≡ true)
        → ⊥
    refuted r t e w h (ep, w', h') =
        let same : e ≡ ep = cc (sym w ∙ w') in cc (rw (← same) at h', h)
