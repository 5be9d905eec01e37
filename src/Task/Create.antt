-- ===== src/Task/Create.antt =====
-- New tasks, src/kernel/task.rs: `create_idle` and `create_user_image`.
use nek_os.Base.{
  ℕ, ◌+◌, ◌-◌, ◌%◌, ◌^◌, bit_or, Bool, true, ◌||◌, Option, none, some, set, ◌==◌, ltb,
  if◌then◌else◌, is_some,
}
use nek_os.Page.{page_size}
use nek_os.PageTable
use nek_os.PageTable.{Phys, alloc_page, free_page}
use nek_os.Vm.{map_kernel}
use nek_os.Trap.{TrapFrame, empty_frame}
use nek_os.Task.{
  Task, Kernel, ready, position, empty_slot, has_pid, idle_pid, user_stack_top, heap_limit,
  one_more,
}
use nek_os.Task.Space.{free_user_space, init_context}

abbrev sstatus_spie : ℕ
sstatus_spie = 2 ^ 5

abbrev sstatus_spp : ℕ
sstatus_spp = 2 ^ 8

abbrev sstatus_sum : ℕ
sstatus_sum = 2 ^ 18

abbrev pub set_phys : Phys → Kernel → Kernel
set_phys s k = record k { phys = s }

-- The idle task goes into slot `i`, on its stack and page table.
unfoldable pub install_idle : ℕ → ℕ → ℕ → ℕ → Kernel → Option ℕ × Kernel
unfolding init_context
install_idle i entry kernel_stack pagetable k =
    let frame : TrapFrame = record empty_frame {
      sp = kernel_stack + page_size - 16;
      sepc = entry;
      sstatus = bit_or sstatus_spp sstatus_spie;
    } in
    let (trap_frame, k1) = init_context kernel_stack pagetable frame k in
    let idle : Task = record {
      pid = idle_pid;
      state = ready;
      trap_frame = trap_frame;
      kernel_stack = kernel_stack;
      user_stack = 0;
      entry = entry;
      pagetable = pagetable;
      exit_code = 0;
      image_base = 0;
      image_size = 0;
      heap_base = 0;
      heap_end = 0;
      parent_pid = none;
      waiting_for = none;
    } in
    (some idle_pid, record k1 { tasks = set k1.tasks i (some idle) })

-- The stack and the page table of the idle task; on failure they are given back.
unfoldable pub idle_space : Phys → Option (ℕ × ℕ) × Phys
idle_space s = elim (alloc_page s).0 [
  | none ↦ (none, (alloc_page s).1)
  | some kernel_stack ↦
      let (o, s2) = PageTable.create (alloc_page s).1 in
      elim o [
        | none ↦ (none, free_page kernel_stack s2)
        | some pagetable ↦
            let (r, s3) = map_kernel pagetable s2 in
            elim r [
              | none ↦ (none, free_page kernel_stack (PageTable.free pagetable s3))
              | some u ↦ (some (kernel_stack, pagetable), s3)
            ]
      ]
]

unfoldable pub create_idle : ℕ → Kernel → Option ℕ × Kernel
unfolding install_idle idle_space position empty_slot
create_idle entry k =
    if is_some (position (has_pid idle_pid) k.tasks) then (none, k) else elim (empty_slot k.tasks) [
      | none ↦ (none, k)
      | some i ↦
          let (o, s) = idle_space k.phys in
          elim o [
            | none ↦ (none, set_phys s k)
            | some (kernel_stack, pagetable) ↦
                install_idle i entry kernel_stack pagetable (set_phys s k)
          ]
    ]

-- A loaded image: `exec::LoadedImage`.
pub record Image : Type 0 where
  pub pagetable : ℕ
  pub user_stack : ℕ
  pub entry : ℕ
  pub image_base : ℕ
  pub image_size : ℕ

-- `image_base.checked_add(image_size)`
abbrev pub checked_heap_base : Image → Option ℕ
checked_heap_base m =
    if ltb (m.image_base + m.image_size) (2 ^ 64) then some (m.image_base + m.image_size) else none

-- `heap_base > HEAP_LIMIT || heap_base % PAGE_SIZE != 0`
abbrev pub bad_heap_base : ℕ → Bool
bad_heap_base b = ltb heap_limit b || (if b % page_size == 0 then Bool.false else true)

abbrev pub release_image : Image → ℕ → Kernel → Kernel
release_image m heap_base k =
    set_phys
      (free_user_space m.pagetable m.user_stack m.image_base m.image_size heap_base heap_base
        k.phys)
      k

-- The new task goes into slot `i`.
unfoldable pub install_user : ℕ → Image → ℕ → ℕ → Kernel → Option ℕ × Kernel
unfolding init_context
install_user i m heap_base kernel_stack k =
    let pid = k.next_pid in
    let frame : TrapFrame = record empty_frame {
      sp = user_stack_top;
      sepc = m.entry;
      sstatus = bit_or sstatus_spie sstatus_sum;
    } in
    let (trap_frame, k1) =
      init_context kernel_stack m.pagetable frame (record k { next_pid = one_more k.next_pid }) in
    let task : Task = record {
      pid = pid;
      state = ready;
      trap_frame = trap_frame;
      kernel_stack = kernel_stack;
      user_stack = m.user_stack;
      entry = m.entry;
      pagetable = m.pagetable;
      exit_code = 0;
      image_base = m.image_base;
      image_size = m.image_size;
      heap_base = heap_base;
      heap_end = heap_base;
      parent_pid = k1.current_pid;
      waiting_for = none;
    } in
    (
      some pid,
      record k1 { tasks = set k1.tasks i (some task); runnable_count = one_more k1.runnable_count },
    )

unfoldable pub create_user_image : Image → Kernel → Option ℕ × Kernel
unfolding install_user empty_slot free_user_space
create_user_image m k = elim (checked_heap_base m) [
  | none ↦ (none, k)
  | some heap_base ↦
      if bad_heap_base heap_base
      then (none, release_image m heap_base k)
      else elim (empty_slot k.tasks) [
        | none ↦ (none, release_image m heap_base k)
        | some i ↦
            let (o, s) = alloc_page k.phys in
            elim o [
              | none ↦ (none, release_image m heap_base (set_phys s k))
              | some kernel_stack ↦ install_user i m heap_base kernel_stack (set_phys s k)
            ]
      ]
]
