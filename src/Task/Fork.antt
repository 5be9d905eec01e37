-- ===== src/Task/Fork.antt =====
-- `fork`, `replace_current` and `sbrk`, src/kernel/task.rs.
use nek_os.Base.{
  ℕ, zero, suc, ◌+◌, ◌-◌, ◌^◌, bit_and, bit_or, Bool, true, false, ◌&&◌, ◌||◌, Option, none, some,
  set, ltb, leb, if◌then◌else◌, opt_eq, M, pure, ◌>>=◌, ◌>>◌,
}
use nek_os.Page.{page_size}
use nek_os.PageTable
use nek_os.PageTable.{
  Phys, alloc_page, free_page, walk, is_valid, pte_to_pa, write_word, pte_r, pte_w, pte_u,
}
use nek_os.Vm.{map_kernel, satp_of}
use nek_os.Trap.{frame_size}
use nek_os.Task.{
  Task, Kernel, ready, position, empty_slot, task_at, update_at, write_frame, current_index,
  idle_pid, user_stack_top, heap_limit, one_more,
}
use nek_os.Task.Space.{free_user_space, init_context, align_up, steps, image_start, image_end}
use nek_os.Task.Create.{Image, checked_heap_base, bad_heap_base, set_phys}

-- `copy_nonoverlapping(src, dst, PAGE_SIZE)`, and `write_bytes(page, 0, PAGE_SIZE)`
abbrev pub copy_page : ℕ → ℕ → Phys → Phys
copy_page src dst s = record s {
  mem = λ a. if leb dst a && ltb a (dst + page_size) then s.mem (a - dst + src) else s.mem a;
}

abbrev pub zero_page : ℕ → Phys → Phys
zero_page page s = record s {
  mem = λ a. if leb page a && ltb a (page + page_size) then 0 else s.mem a;
}

abbrev pub user_rw : ℕ
user_rw = bit_or (bit_or pte_r pte_w) pte_u

-- The entry of `va`, if it is valid.
unfoldable pub source_pte : ℕ → ℕ → Phys → Option ℕ
source_pte pt va s = elim (walk pt va false s).0 [
  | none ↦ none
  | some pte ↦ if is_valid (s.mem pte) then some (s.mem pte) else none
]

-- A page of the parent copied into a new page of the child, with the same flags.
unfoldable pub copy_entry : ℕ → ℕ → ℕ → M Phys (Unit {0})
copy_entry child_pt va pte = do
  page ← alloc_page
  λ s.
      PageTable.map child_pt va page page_size (bit_and pte 0x3fe)
        (copy_page (pte_to_pa pte) page s)

-- The loops of `fork` over the image, which skips what is not mapped, and over the heap, which must be
-- mapped: `n` rounds from `va` on.
unfoldable pub copy_pages : Bool → ℕ → ℕ → ℕ → ℕ → M Phys (Unit {0})
unfolding source_pte copy_entry
copy_pages skip zero parent_pt child_pt va s = (some tt, s)
copy_pages skip (suc n) parent_pt child_pt va s =
    let rest = copy_pages skip n parent_pt child_pt (va + page_size) in
    elim (source_pte parent_pt va s) [
      | none ↦ if skip then rest s else (none, s)
      | some pte ↦ (copy_entry child_pt va pte >> rest) s
    ]

-- The pages of the child: kernel stack, user stack and page table. What fails leaves the pages that
-- were taken before.
unfoldable pub fork_space : Task → M Phys (ℕ × ℕ × ℕ)
unfolding copy_pages align_up
fork_space parent = do
  kernel_stack ← alloc_page
  user_stack ← alloc_page
  child_pt ← PageTable.create
  map_kernel child_pt
  let start = image_start parent.image_base
  let end = image_end parent.image_base parent.image_size
  copy_pages true (steps start end) parent.pagetable child_pt start
  heap_mapped_end ← λ s. (align_up parent.heap_end, s)
  copy_pages false (steps parent.heap_base heap_mapped_end) parent.pagetable child_pt
      parent.heap_base
  λ s. (some tt, copy_page parent.user_stack user_stack s)
  PageTable.map child_pt (user_stack_top - page_size) user_stack page_size user_rw
  pure (kernel_stack, user_stack, child_pt)

-- The child, which returns 0 from `fork`, in the first empty slot. `next_pid` has moved on also where
-- there is none.
unfoldable pub install_child : Task → ℕ → ℕ → ℕ → ℕ → Kernel → Option ℕ × Kernel
unfolding init_context empty_slot
install_child parent kernel_stack user_stack child_pt tf k =
    let pid = k.next_pid in
    let (child_tf, k1) =
      init_context kernel_stack child_pt (record (k.frames tf) { a0 = 0 })
        (record k { next_pid = one_more k.next_pid }) in
    let child : Task = record {
      pid = pid;
      state = ready;
      trap_frame = child_tf;
      kernel_stack = kernel_stack;
      user_stack = user_stack;
      entry = parent.entry;
      pagetable = child_pt;
      exit_code = 0;
      image_base = parent.image_base;
      image_size = parent.image_size;
      heap_base = parent.heap_base;
      heap_end = parent.heap_end;
      parent_pid = k1.current_pid;
      waiting_for = none;
    } in
    elim (empty_slot k1.tasks) [
      | none ↦ (none, k1)
      | some i ↦ (
        some pid,
        record k1 {
          tasks = set k1.tasks i (some child);
          runnable_count = one_more k1.runnable_count;
          frames = write_frame k1.frames tf (record (k1.frames tf) { a0 = pid });
        },
      )
    ]

unfoldable pub fork : ℕ → Kernel → Option ℕ × Kernel
unfolding fork_space install_child position
fork tf k = if opt_eq k.current_pid (some idle_pid) then (none, k) else elim (current_index k) [
  | none ↦ (none, k)
  | some i ↦ elim (task_at i k.tasks) [
    | none ↦ (none, k)
    | some parent ↦
        let (o, s) = fork_space parent k.phys in
        elim o [
          | none ↦ (none, set_phys s k)
          | some (kernel_stack, user_stack, child_pt) ↦
              install_child parent kernel_stack user_stack child_pt tf (set_phys s k)
        ]
  ]
]

-- The task after `exec`.
abbrev pub replaced : Image → ℕ → Task → Task
replaced m heap_base t = record t {
  pagetable = m.pagetable;
  user_stack = m.user_stack;
  entry = m.entry;
  image_base = m.image_base;
  image_size = m.image_size;
  heap_base = heap_base;
  heap_end = heap_base;
}

unfoldable pub replace_current : Image → ℕ → Kernel → Option (Unit {0}) × Kernel
unfolding free_user_space position
replace_current m tf k = elim (checked_heap_base m) [
  | none ↦ (none, k)
  | some heap_base ↦ if bad_heap_base heap_base then (none, k) else elim (current_index k) [
    | none ↦ (none, k)
    | some i ↦ elim (task_at i k.tasks) [
      | none ↦ (none, k)
      | some t ↦
          let s : Phys = record {
            mem = write_word k.phys.mem (t.trap_frame + frame_size + 8) (satp_of m.pagetable);
            pages = k.phys.pages;
          } in
          (
            some tt,
            record k {
              tasks = update_at i (replaced m heap_base) k.tasks;
              frames = write_frame k.frames tf (record (k.frames tf) {
                sp = user_stack_top;
                sepc = m.entry;
                a0 = 0;
                a1 = 0;
                a2 = 0;
              });
              phys =
                  free_user_space t.pagetable t.user_stack t.image_base t.image_size t.heap_base
                    t.heap_end s;
            },
          )
    ]
  ]
]

-- `old.checked_add_signed(increment)`; the `isize` is its bit pattern.
abbrev pub checked_add_signed : ℕ → ℕ → Option ℕ
checked_add_signed old increment =
    if ltb increment (2 ^ 63)
    then (if ltb (old + increment) (2 ^ 64) then some (old + increment) else none)
    else (if leb (2 ^ 64 - increment) old then some (old - (2 ^ 64 - increment)) else none)

-- What the loop of `sbrk` undoes when it fails at `mapped_end`.
abbrev roll_back : ℕ → ℕ → ℕ → Phys → Phys
roll_back pt old_mapped_end mapped_end s =
    if ltb old_mapped_end mapped_end
    then (PageTable.unmap pt old_mapped_end (mapped_end - old_mapped_end) true s).1
    else s

-- `while mapped_end < new_mapped_end`, `n` rounds.
unfoldable pub grow : ℕ → ℕ → ℕ → ℕ → M Phys (Unit {0})
grow zero pt old_mapped_end mapped_end s = (some tt, s)
grow (suc n) pt old_mapped_end mapped_end s =
    let rest = grow n pt old_mapped_end (mapped_end + page_size) in
    let (o, s1) = alloc_page s in
    elim o [
      | none ↦ (none, roll_back pt old_mapped_end mapped_end s1)
      | some page ↦
          let (r, s2) = PageTable.map pt mapped_end page page_size user_rw (zero_page page s1) in
          elim r [
            | none ↦ (none, roll_back pt old_mapped_end mapped_end (free_page page s2))
            | some u ↦ rest s2
          ]
    ]

-- The pages of the heap, from the old to the new end.
unfoldable pub resize : ℕ → ℕ → ℕ → M Phys (Unit {0})
unfolding grow
resize pt old_mapped_end new_mapped_end =
    if ltb old_mapped_end new_mapped_end
    then grow (steps old_mapped_end new_mapped_end) pt old_mapped_end old_mapped_end
    else if ltb new_mapped_end old_mapped_end
    then PageTable.unmap pt new_mapped_end (old_mapped_end - new_mapped_end) true
    else pure tt

unfoldable pub sbrk : ℕ → Kernel → Option ℕ × Kernel
unfolding resize align_up position
sbrk increment k =
    if opt_eq k.current_pid (some idle_pid) then (none, k) else elim (current_index k) [
      | none ↦ (none, k)
      | some i ↦ elim (task_at i k.tasks) [
        | none ↦ (none, k)
        | some t ↦ elim (checked_add_signed t.heap_end increment) [
          | none ↦ (none, k)
          | some new_end ↦
              if ltb new_end t.heap_base || ltb heap_limit new_end
              then (none, k)
              else elim (align_up t.heap_end) [
                | none ↦ (none, k)
                | some old_mapped_end ↦ elim (align_up new_end) [
                  | none ↦ (none, k)
                  | some new_mapped_end ↦
                      let (r, s) = resize t.pagetable old_mapped_end new_mapped_end k.phys in
                      elim r [
                        | none ↦ (none, set_phys s k)
                        | some u ↦ (
                          some t.heap_end,
                          record k {
                            phys = s;
                            tasks = update_at i (λ u. record u { heap_end = new_end }) k.tasks;
                          },
                        )
                      ]
                ]
              ]
        ]
      ]
    ]
