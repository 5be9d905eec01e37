-- ===== src/Tests/Memory.antt =====
-- Runs of the allocator, the page tables, the message queue and the PLIC.
use nek_os.Base.{ℕ, ◌+◌, ◌-◌, ◌/◌, ◌%◌, ◌≤◌, ◌<◌, none, some, ◌≡◌, refl, ◌⊎◌, arith}
use nek_os.Base.Bits.{bit}
use nek_os.Page
use nek_os.Page.{PageAllocator, page_size}
use nek_os.Page.Bitmap.{used}
use nek_os.Page.Alloc.{IsValid, Took, page_addr, alloc_lem, alloc-IsValid}
use nek_os.Page.Free.{Freed, free_outcome, free-IsValid, free-alloc}
use nek_os.Page.Boot.{init_lem, new-IsValid}
use nek_os.Vm.{kernel_start, kernel_size}
use nek_os.Vm.Window.{init-beyond_window}
use nek_os.PageTable.{Phys, create, walk, descend, map_page, virt_to_phys}
use nek_os.PageTable.Walk.{IsReady, next_table}
use nek_os.PageTable.Translate.{HasTables, virt_to_phys-map_page}
use nek_os.Ipc.{Message, MsgQueue, new_queue, push, pop}
use nek_os.Ipc.Queue
use nek_os.Ipc.Queue.{
  contents, fifo_push, fifo_pop, push_refines, pop_refines, push-IsValid, pop-IsValid,
  new_queue-IsValid,
}
use nek_os.Plic.{enable, disable}
use nek_os.Plic.Mask.{enabled, enable-disable_lem}

-- Eight pages behind a kernel that ends at 0x8030_0000.
abbrev eight_pages : PageAllocator
eight_pages = Page.new 0x8030_0000 8

eight_pages-IsValid : IsValid eight_pages
eight_pages-IsValid = new-IsValid 0x8030_0000 8 (omega arith)

alloc_lem_example :
    ((eight_pages.free_pages ≡ 0) × (Page.alloc eight_pages ≡ (none, eight_pages)))
    ⊎ ((i : ℕ) × Took eight_pages i (Page.alloc eight_pages))
alloc_lem_example = alloc_lem eight_pages eight_pages-IsValid

alloc-IsValid_example : IsValid (Page.alloc eight_pages).1
alloc-IsValid_example = alloc-IsValid eight_pages eight_pages-IsValid

abbrev one_taken : PageAllocator
one_taken = (Page.alloc eight_pages).1

one_taken-IsValid : IsValid one_taken
one_taken-IsValid = alloc-IsValid eight_pages eight_pages-IsValid

first_page : (Page.alloc eight_pages).0 ≡ some 0x8030_0000
unfolding Page.alloc Page.new
first_page = refl

free_outcome_example :
    (((0x8030_0010 < one_taken.start_addr)
        ⊎ (page_addr one_taken one_taken.total_pages ≤ 0x8030_0010))
      × (Page.free one_taken 0x8030_0010 ≡ one_taken))
    ⊎ ((one_taken.start_addr ≤ 0x8030_0010)
        × (0x8030_0010 < page_addr one_taken one_taken.total_pages)
        × Freed one_taken
            ((0x8030_0010 - one_taken.start_addr) / page_size)
            (Page.free one_taken 0x8030_0010))
free_outcome_example = free_outcome one_taken 0x8030_0010 one_taken-IsValid

free-IsValid_example : IsValid (Page.free one_taken 0x8030_0000)
free-IsValid_example = free-IsValid one_taken 0x8030_0000 one_taken-IsValid

free-alloc_example :
    ((j : ℕ) → used (Page.free one_taken 0x8030_0000).bitmap j ≡ used eight_pages.bitmap j)
    × ((Page.free one_taken 0x8030_0000).free_pages ≡ eight_pages.free_pages)
    × ((Page.alloc (Page.free one_taken 0x8030_0000)).0 ≡ some 0x8030_0000)
free-alloc_example = free-alloc eight_pages 0x8030_0000 eight_pages-IsValid first_page

init_lem_example :
    IsValid (Page.init 0x8026_4000)
    × ((Page.init 0x8026_4000).free_pages ≡ (Page.init 0x8026_4000).total_pages)
    × ((Page.init 0x8026_4000).start_addr % 4096 ≡ 0)
    × (0x8026_4000 ≤ (Page.init 0x8026_4000).start_addr)
    × (page_addr (Page.init 0x8026_4000) (Page.init 0x8026_4000).total_pages ≤ 0x8800_0000)
init_lem_example = init_lem 0x8026_4000 (omega arith) (omega arith)

init-beyond_window_example :
    ((Page.init 0x8026_4000).total_pages ≡ 4096)
    × (kernel_start + kernel_size
        < page_addr (Page.init 0x8026_4000) (Page.init 0x8026_4000).total_pages)
init-beyond_window_example = init-beyond_window 0x8026_4000 (omega arith) (omega arith)

-- A message queue with one message.
abbrev hello : Message
hello = record { sender = 2; words = record { w0 = 1; w1 = 2; w2 = 3; w3 = 4 }; buf_len = 0 }

abbrev one_message : MsgQueue
one_message = (push hello new_queue).1

one_message-IsValid : Queue.IsValid one_message
one_message-IsValid = push-IsValid hello new_queue (new_queue-IsValid.0)

push_refines_example :
    ((push hello one_message).0, contents (push hello one_message).1)
    ≡ fifo_push hello (contents one_message)
push_refines_example = push_refines hello one_message one_message-IsValid

pop_refines_example :
    ((pop one_message).0, contents (pop one_message).1) ≡ fifo_pop (contents one_message)
pop_refines_example = pop_refines one_message one_message-IsValid

enable-disable_lem_example :
    (enabled (enable 10 (λ r. 0)) 10 ≡ 1)
    × (enabled (disable 10 (λ r. 0)) 10 ≡ 0)
    × (enabled (enable 10 (λ r. 0)) 1 ≡ enabled (λ r. 0) 1)
    × (enabled (disable 10 (λ r. 0)) 1 ≡ enabled (λ r. 0) 1)
enable-disable_lem_example = enable-disable_lem (λ r. 0) 10 1 (λ e. absurd (omega arith))

-- A root table in the first of the eight pages, and nothing mapped.
abbrev empty_space : Phys
empty_space = record { mem = λ x. 0; pages = some one_taken }

abbrev root : ℕ
root = 0x8030_0000

one_taken-start : one_taken.start_addr ≡ root
unfolding Page.alloc Page.new
one_taken-start = refl

one_taken-total : one_taken.total_pages ≡ 8
unfolding Page.alloc Page.new
one_taken-total = refl

one_taken-first : used one_taken.bitmap 0 ≡ 1
unfolding Page.alloc Page.new used bit
one_taken-first = refl

empty_space-IsReady : IsReady empty_space one_taken
empty_space-IsReady = record {
  here = refl;
  valid = one_taken-IsValid;
  aligned = rw one_taken-start refl;
  small = rw (one_taken-start, one_taken-total) (omega arith);
}

no_table : {n : ℕ} → next_table 0 ≡ some n → ⊥
unfolding next_table
no_table h = cc

empty_space-HasTables : HasTables empty_space one_taken root 0x1000
empty_space-HasTables = record {
  root = record {
    index = 0;
    in_range = rw one_taken-total (omega arith);
    taken = one_taken-first;
    address = rw one_taken-start refl;
  };
  level1 = λ n h. absurd (no_table h);
  level0 = λ n m h k. absurd (no_table h);
}

-- One page mapped at 0x1000.
abbrev one_mapped : Phys
one_mapped = (map_page root 0x1000 0x8020_0000 0x17 empty_space).1

one_mapped_lem : map_page root 0x1000 0x8020_0000 0x17 empty_space ≡ (some tt, one_mapped)
unfolding map_page Page.alloc Page.new walk descend create Page.alloc_static
one_mapped_lem = refl

virt_to_phys-map_page_example :
    virt_to_phys root (0x1000 + 0x10) one_mapped ≡ (some (0x8020_0000 + 0x10), one_mapped)
virt_to_phys-map_page_example =
    virt_to_phys-map_page root 0x1000 0x8020_0000 0x17 0x10 empty_space one_mapped one_taken
      empty_space-IsReady empty_space-HasTables (omega arith) (omega arith) (omega arith)
      (omega arith) (omega arith) one_mapped_lem
