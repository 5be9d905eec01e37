-- ===== src/Lib.antt =====
-- NekOS, a small RISC-V operating system with message passing: a model of its kernel and of its file
-- server.
--
-- The kernel is one address space with the page allocator (Page), Sv39 page tables (PageTable, Vm), the
-- task manager (Task), which owns the message queues (Ipc), the loader of programs (Initrd, Exec), the
-- interrupt controller (Plic), and traps (Trap), which end in a system call (Syscall) or in a switch to
-- another task. The state of everything is the record `Kernel` of Task: memory and the allocator, the
-- trap frames by their addresses, the task table, the endpoints, the UART's owner and the PLIC's
-- registers. Each operation is a function from it to a result and the new state.
--
-- * src/kernel/page.rs is Page: `PageAllocator`, `alloc`, `free`, `init`. Page/Bitmap, Alloc, Free and
--   Boot are about it.
-- * src/kernel/pgtable.rs is PageTable. Memory is a function from the addresses of words to their
--   values. One round of the loop of `walk` is `descend`, one of `map` is `map_page`.
-- * src/kernel/vm.rs is Vm; Vm/Window compares the mapping with the allocator.
-- * src/kernel/ipc.rs is Ipc; Ipc/Queue has the queue that `MsgQueue` implements.
-- * src/kernel/task.rs is Task and the modules below it: Space (address spaces, reaping), Create, Fork
--   (`fork`, `replace_current`, `sbrk`), Sched (`schedule`, `waitpid`), Exit, Message (`ipc_call` is
--   `send`, `ipc_recv` is `receive`, `ipc_reply` is `reply`), Buffer (the same with buffers) and Uart.
--   Table, Slots, Everyone, RoundRobin, Runnable, Sound, Keep, Waitpid, Leave, Wake, Blocking and
--   Messages are about them: the invariant is `IsSound` of Task/Runnable. Awake
--   follows a task that has been woken. Task/Settled has the invariant
--   `IsSettled` of the tasks and the endpoints together; Quiet and Calm are about steps that leave the
--   endpoints alone, and the modules below Settled go through the operations.
-- * src/kernel/exec.rs is Exec, src/kernel/initrd.rs is Initrd (`init` is `load_archive`).
-- * src/kernel/syscall.rs is Syscall, src/kernel/trap.rs is Trap with `trap_handler` in Syscall;
--   Syscall/Settled puts the operations together. Syscall/Traces is a sequence of traps, with
--   whatever the tasks do to registers and memory in between.
-- * src/main.rs is Boot, with Boot/Dormant, Tasks and Settled about it.
-- * src/drivers/plic.rs is Plic.
-- * user/programs/fs-server/src/main.rs, a user program that answers requests by message, is Fs, with its
--   RAM disk as a function from addresses to bytes and the volume as the record `Fat32Fs`; `open` is
--   `open_fs`. Dir has `walk_dir` and `find_entry`, Path `resolve_path`, File `read_file` and
--   `write_file`, ShortName `make_short_name`, Create `create_dir_entry` and `create_empty_dir`, Change
--   `update_dir_entry_size`, `free_chain` and `truncate_file`, Erase `delete_dir_entry`, Format
--   `format_fat32`, and Server the requests of `main`. The other files of Fs are about them: the disk
--   (Sectors, Partial), the table (Fat, Alloc, Volume), chains (Chain, Ends), directories (Entries, Records,
--   Listing, Names, Short, Kept, Created, CreateFind, Mark, Delete), contents (Block, RoundTrip) and the Start.
-- * user/userlib/src/ipc.rs and syscall.rs are User/Ipc and Calls: a wrapper is its registers at the
--   `ecall` and its result. Rpc, Delivery and Answers follow them through the kernel. io.rs is User/Io, over
--   a parameter for `ipc::call`; user/programs/console/src/main.rs is User/Console, over a UART that is a
--   parameter. Terminal joins the two, Output and Input are about them. The line editor of
--   user/programs/shell/src/main.rs is User/Shell, with Edit, Keys and Editor about it.
-- * src/drivers/uart.rs is Drivers/Uart.
-- * Base has the tests, lists, words and bits that they share, Tests concrete inputs.
--
-- Numbers are natural numbers; a `usize` sum that can wrap is written with its wrap-around. The model
-- follows a release build, in which arithmetic wraps. Loops are by recursion on their number of rounds.
-- The walk over the archive has fuel for each of its bytes and one more; a round takes a header of 110
-- bytes at least. `free_walk` follows the three levels of Sv39 at most. The loops of the file server along a
-- chain of clusters take the number of clusters that they may visit as an argument: a search for an offset
-- visits one for each cluster in front of it, and a transfer one for each cluster of its bytes. A walk along
-- a directory whose clusters lead round in a circle need not end in the source. The loops that poll the
-- UART take the number of times that they ask; a transmitter that is ready needs one. The line editor
-- takes the number of bytes that it may read.
--
-- The kernel's own accesses to memory do not fault, and trap frames are kept apart from the memory of the
-- tasks: that a trap does not panic is meant within this. What the kernel maps is in Vm.
--
-- Not modelled: printing, which changes no state of these; control registers, TLB flushes, the assembly
-- of traps, SBI calls and the timer, which are the machine's. The UART as a device, what the PLIC's claim
-- register reads, UTF-8 validation and `str::encode_utf16` in the standard library are parameters. The
-- commands of the shell are left out.
pub mod Base
pub mod Page
pub mod PageTable
pub mod Trap
pub mod Ipc
pub mod Vm
pub mod Plic
pub mod Task
pub mod Initrd
pub mod Exec
pub mod Fs
pub mod Syscall
pub mod Boot
pub mod Drivers
pub mod User
pub mod Tests
