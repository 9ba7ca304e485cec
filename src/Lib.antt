-- ===== src/Lib.antt =====
-- Tanix, a Rust microkernel for AArch64 and the servers around it.
--
-- The kernel owns physical memory: it hands out frames of 4096 bytes to page tables, tasks and
-- virtual machines. Everything above runs as servers. The `net` server drives a network card and
-- gives each frame to libtanix-net, a socket layer without system calls or a clock of its own: it
-- parses the frame, changes a socket, and puts the replies into a queue that the server sends.
--
-- Prelude: numbers, Boolean tests and lists that the parts share (Prelude/Lists for arrays and
-- slices, Prelude/Count for counting by a test). Bytes: byte buffers, their slices and copies.
-- Slots: tables of optional entries, as the kernel keeps its objects.
--
-- Mem.Frame: kernel/src/mem/frame.rs, `FrameAllocator`. The bitmap is a list of 64-bit words, and a
-- word is the list of its bits, the lowest first; `trailing_zeros` and the single-bit tests and
-- writes are functions on that list. Every method is a definition of the same name. `none` stands
-- for the panic of an assertion or for the `None` of the source, as the comment at each says.
-- Children: Words and Bits on the bitmap, Range on a reserving loop, Invariant, and one module per
-- group of methods (Alloc, Free, Contiguous, Init). The global instance, its lock and the log lines
-- are left out.
--
-- Mem.PageTable: kernel/src/mem/page_table.rs. Memory is the frame allocator beside the 64-bit words of
-- every frame; a table is a frame, and its address is its name. `none` is the panic for lack of a
-- frame. Descriptor: the entries; Tree: which frames are tables, each with one place, and what a walk
-- from a root reads; Opened and Ensure, Map and Rewrite: what `ensure_table`, `map_user_frame` and
-- `write_user_page` do to all walks. Mem.Fault: kernel/src/mem/vm_fault.rs, with the table and the
-- regions of the current task as arguments (Split: the copy on write; Regions and Repairs: what a
-- repair may do). The flushes of the translation buffer and the debug assertions are left out.
--
-- Net: servers/libtanix-net/src.
--   Bytes     ip.rs, the big-endian fields
--   Ip        ip.rs, the parsers of the ethernet and the IPv4 header
--   Checksum  checksum.rs
--   Out       out.rs, the queue of frames to send
--   Wire      `push_tcp_frame` of tcp.rs and `push_udp_frame` of udp.rs
--   Tcp       tcp.rs, the socket: its fields and the calls of an application
--   Tcp.Segment  tcp.rs, what an arriving segment does
--   Tcp.Poll     tcp.rs, what the clock does
--   Udp       udp.rs, the endpoint
--   Stack     lib.rs, `NetStack`: its fields and the cache of neighbours; Arp, Icmp, UdpSockets and
--             TcpSockets hold the methods of those names, Ingress the way of a frame to its socket.
-- A byte is a number, and so is a machine word; the wrap-around is written out with `%`, and `IsBytes`
-- says that a buffer holds bytes. A buffer is a list of its full capacity beside a fill count, as in
-- the source. A method that sends frames takes the context with the queue and returns it, with the
-- new socket. The bits of `TcpSocket.notify` are four flags. The clock is an argument, as in the
-- source. `fold_carries` runs at most two rounds, which is enough for a 32-bit sum. Buffers are
-- accessed inside their length wherever the invariant of the socket holds; outside of it a read gives
-- 0, where the source panics. In Stack the two slices that a frame can make panic are `none`.
--
-- Ipc.Channel: kernel/src/ipc/channel.rs, the rendezvous channels and their table (Rendezvous: what
-- becomes of a message). Hypervisor.Doorbell: kernel/src/hypervisor/doorbell.rs, the table of
-- doorbells and its counts. The global tables are arguments; the interrupt that a ring sends is part
-- of its result.
--
-- Sched: kernel/src/sched.
--   Table     task.rs, the table of tasks: spawning, searches, states and priorities
--   Pick      task.rs, the choice of the next task (Best: what it picks)
--   Switch    task.rs, the scheduling points: tick, yield, the tail of a system call, kill and exit
--             (Rotate: what a switch does to the table; Wake: sleepers and killed tasks)
--   Cores     smp.rs, the cores over the one table: one system, whose steps are the scheduling points
--             of any core (Apart: what keeps the cores apart; Picked, Switches, Ticks, Points, Reach)
--   Regions   task.rs, the memory regions of a task (Disjoint: they stay apart)
-- The CPU, its current slot and the time are arguments; the switch of the registers, in assembly, and
-- the lock around it are left out.
--
-- Ipc.Syscall: kernel/src/ipc/syscall.rs, the calls on messages over the table of Sched. A call takes the
-- message by its value and gives what it writes, and where, in its result (Received and Handover: a
-- message that is parked or staged; Rendezvous: one that meets a waiting receiver; InFlight and Kept:
-- how many are on their way; Stale: a woken task recorded for too long).
--
-- Irq: kernel/src/irq.rs, the record of delivered interrupts, with the two calls that read it (Wait: which
-- waits end). The interrupts that arrive in each round of a wait are an argument.
--
-- Hypervisor.Msgq: the message queues of kernel/src/hypervisor/backend.rs, rings of 16 slots, against
-- a bounded queue of messages (Msgq.Fifo). Hypervisor.Backend: the bare-metal backend of that file,
-- with the tables of virtual machines and of queues (Backend.Queues). `HvResult` is the `Result` of the
-- source and its panics. What happens while a guest runs is an argument of `vcpu_run`.
--
-- Fs: servers/libtanix-fs/src/lib.rs, a FAT16 volume.
--   Fat       the cached table: its entries, the allocation of a cluster (Alloc), chains (Chain)
--   File      `read_file`, against the data of a chain (Data, Read, Whole)
--   Mount     `mount` and `flush_fat`
--   Root      the root directory: its entries and their bytes (Codec), names (Names), search and creation
--             (Kept, Placed, Found)
--   Write     `write_file`: its steps, volumes without a stray cluster, the walk along the chain and the
--             stores at the end (Steps, Safe, Chains, Clusters, Stored), what it returns
--             (Writes) and leaves alone (Outside)
-- `BlockIo`, the device, is a parameter. The loops of `read_file` run on fuel: `offset + 1` rounds of
-- the walk and one round more than bytes are asked for of the copy, which is enough since a round of
-- the walk passes a cluster and one of the copy a byte at least; those of `write_file` likewise. An index
-- outside of the cached table, a panic in the source, is a result of `write_file`; elsewhere such a read
-- gives 0.
--
-- Not modelled: the system calls on memory, names and images, the copy, the blocks and the release of a
-- task's page tables, and the rest of the hypervisor layer. The code that talks to devices or to the processor
-- (kernel/src/arch, the drivers) is outside of the development.
pub mod Prelude
pub mod Bytes
pub mod Slots
pub mod Mem
pub mod Net
pub mod Irq
pub mod Ipc
pub mod Sched
pub mod Hypervisor
pub mod Fs
