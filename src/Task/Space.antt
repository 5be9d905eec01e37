-- ===== src/Task/Space.antt =====
-- Address spaces of tasks, src/kernel/task.rs: rounding, release of a space, of a task, and of the
-- detached zombies, and the first trap frame of a task.
use nek_os.Base.{
  ℕ, zero, suc, ◌+◌, ◌-◌, ◌/◌, ◌^◌, bit_and, Bool, false, ◌&&◌, Option, none, some, [], ◌∷◌, ◌==◌,
  ltb, if◌then◌else◌, opt_eq, is_none, not,
}
use nek_os.Base.Words.{add_usize, not_usize}
use nek_os.Page.{page_size}
use nek_os.PageTable.{Phys, walk, is_valid, pte_to_pa, write_word, free_page}
use nek_os.PageTable
use nek_os.Vm.{satp_of}
use nek_os.Trap.{TrapFrame, frame_size}
use nek_os.Task.{Task, Kernel, Table, write_frame, is_zombie}

abbrev pub page_mask : ℕ → ℕ
page_mask x = bit_and x (not_usize (page_size - 1))

-- `checked_add` fails at 2 ^ 64.
unfoldable pub align_up : ℕ → Option ℕ
align_up value =
    if ltb (value + (page_size - 1)) (2 ^ 64)
    then some (page_mask (value + (page_size - 1)))
    else none

-- The body of the loops of `free_user_space`.
unfoldable pub release_page : ℕ → ℕ → Phys → Phys
release_page pt va s = elim (walk pt va false s).0 [
  | none ↦ s
  | some pte ↦
      if is_valid (s.mem pte)
      then (let t = free_page (pte_to_pa (s.mem pte)) s in
          record t { mem = write_word t.mem pte 0 })
      else s
]

-- `for va in (va..).step_by(PAGE_SIZE)`, `n` rounds
unfoldable pub release_pages : ℕ → ℕ → ℕ → Phys → Phys
unfolding release_page
release_pages zero pt va s = s
release_pages (suc n) pt va s = release_pages n pt (va + page_size) (release_page pt va s)

-- The rounds of `(start..end).step_by(PAGE_SIZE)`.
abbrev pub steps : ℕ → ℕ → ℕ
steps start end = (end - start + (page_size - 1)) / page_size

-- The first and the last page boundary of an image.
abbrev pub image_start : ℕ → ℕ
image_start image_base = page_mask image_base

abbrev pub image_end : ℕ → ℕ → ℕ
image_end image_base image_size =
    page_mask (add_usize (add_usize image_base image_size) (page_size - 1))

unfoldable pub free_user_space : ℕ → ℕ → ℕ → ℕ → ℕ → ℕ → Phys → Phys
unfolding release_pages align_up
free_user_space pagetable user_stack image_base image_size heap_base heap_end s =
    let start = image_start image_base in
    let end = image_end image_base image_size in
    let s1 = release_pages (steps start end) pagetable start s in
    let heap_mapped_end : ℕ = elim (align_up heap_end) [ none ↦ heap_base | some e ↦ e ] in
    let s2 = release_pages (steps heap_base heap_mapped_end) pagetable heap_base s1 in
    let s3 : Phys = if user_stack == 0 then s2 else free_page user_stack s2 in
    PageTable.free pagetable s3

-- `free_address_space` and `free_task`
unfoldable pub free_task : Task → Phys → Phys
unfolding free_user_space
free_task t s =
    free_page t.kernel_stack
      (free_user_space t.pagetable t.user_stack t.image_base t.image_size t.heap_base t.heap_end s)

abbrev pub is_detached : Option ℕ → Task → Bool
is_detached current_pid t =
    is_zombie t.state && (is_none t.parent_pid && not (opt_eq (some t.pid) current_pid))

-- The loop of `reap_detached_zombies`.
unfoldable pub reap : Option ℕ → Table → Phys → Table × Phys
reap current_pid [] s = ([], s)
reap current_pid (none ∷ ts) s = let (us, s') = reap current_pid ts s in (none ∷ us, s')
reap current_pid (some t ∷ ts) s =
    let gone = is_detached current_pid t in
    let (us, s') = reap current_pid ts (if gone then free_task t s else s) in
    ((if gone then none else some t) ∷ us, s')

unfoldable pub reap_detached_zombies : Kernel → Kernel
reap_detached_zombies k =
    let (tasks, phys) = reap k.current_pid k.tasks k.phys in record k { tasks = tasks; phys = phys }

-- `init_context`: the frame at the top of the kernel stack, with the two page-table words above it.
unfoldable pub init_context : ℕ → ℕ → TrapFrame → Kernel → ℕ × Kernel
init_context kernel_stack pagetable frame k =
    let frame_addr = kernel_stack + page_size - 16 - frame_size in
    let mem1 = write_word k.phys.mem (frame_addr + frame_size) (satp_of k.kernel_pagetable) in
    let mem2 = write_word mem1 (frame_addr + frame_size + 8) (satp_of pagetable) in
    (
      frame_addr,
      record k {
        frames = write_frame k.frames frame_addr frame;
        phys = record { mem = mem2; pages = k.phys.pages };
      },
    )
