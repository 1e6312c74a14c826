-- ===== src/Lib.antt =====
-- AK-mOS, a small preemptive real-time kernel for the Cortex-M3.
--
-- The kernel keeps the tasks that are ready in one list for each priority (AK-mOS/Src/os_list.c)
-- and marks in a bitmap which of these lists has a task (AK-mOS/Src/os_prio.c). The tasks that wait
-- stand in lists sorted by the tick at which they wake. Stacks, queues and the contents of messages
-- come from a heap of its own (AK-mOS/Src/os_mem.c).
--
-- Prio: AK-mOS/Src/os_prio.c. The bitmap is a list of bytes; `os_prio_insert`, `os_prio_remove`,
-- `os_prio_init` and `os_prio_get_highest` are commands on it, and a read outside the table is a
-- fault. Prio/Bits is about single bits of a byte, Prio/Table about the operations that mark and
-- clear, Prio/Highest about the search.
--
-- OsList: AK-mOS/Src/os_list.c and AK-mOS/Inc/os_list.h. The state is a store that gives each
-- address the fields of the item or list there, and each function of the source is a command that
-- reads and writes it pointer by pointer. OsList/Ring says which sequence of items a store holds,
-- and OsList/Links is about its double links; OsList/Attach, OsList/Insert and OsList/Sorted are
-- about the two ways to insert, OsList/Remove about removal, OsList/Turn about the cursor that
-- gives each task of a priority its turn, OsList/Renew about a new list and a removal in mid-round,
-- OsList/Cursor about a turn from wherever the cursor is.
--
-- Mem: AK-mOS/Src/os_mem.c and AK-mOS/Inc/os_mem.h. The state holds the header fields of each block
-- by address. Mem/Blocks says which row of blocks the headers describe, and Mem/Spec is first-fit
-- allocation on such rows without any pointers. Mem/Search, Mem/Replace, Mem/Give and Mem/Malloc
-- lead from the one to the other for `os_mem_malloc`; Mem/Walk, Mem/Merge and Mem/Free do for
-- `os_mem_free`. Mem/Start is about the first call, Mem/Safe about what a caller may rely on,
-- Mem/Undo about freeing what was just given out, Mem/Again about a guard that is missing.
--
-- Msg: AK-mOS/Src/os_msg.c and AK-mOS/Inc/os_msg.h. The state holds the fields of each message and
-- each queue by address, the headers of the heap (the state of Mem), the bytes of the contents, and
-- the state of Kernel. Msg/Queue says which messages a queue and the pool hold; Msg/Link, Msg/Put
-- and Msg/Dynamic are about the two ways to put a message, Msg/Get about taking one out and about
-- puts that are refused, Msg/Pool about the pool's start and giving messages back. The two puts of
-- the source share their text but for its end, and so do the two gets; that text is one definition
-- here. Contents are kept apart from headers, and the addresses of the entries of `msg_pool` are a
-- parameter (`IsArray` says what is asked of it).
--
-- Timer: AK-mOS/Src/os_timer.c and AK-mOS/Inc/os_timer.h without the three functions that post a
-- message or wait for one, which are in System. The state holds the fields of each timer, a store
-- of list items (the state of OsList), the tick count, and the state of Kernel. Timer/Add is about
-- the list that a timer goes to and the tick to wake at.
--
-- Task: AK-mOS/Src/os_task.c and AK-mOS/Inc/os_task.h. The state holds the fields of each TCB by
-- its address and the static variables, with the store of list items (the state of OsList), the
-- bitmap (of Prio), the messages (of Msg), the words of the stacks and the registers; `Place` says
-- where the lists, and the items and queues in a TCB, are. Task/Tick is the model of
-- `os_task_increment_tick`, Task/Message of the messages between tasks, Task/Create of the creation
-- of tasks. Task/Sched states the scheduler's invariant, over OsList/Store and OsList/Move, which
-- are about a store that holds several lists, and Task/Change keeps it when one list changes.
-- Task/Ready, Task/Leave, Task/Wait, Task/Delay and Task/Park are about the moves of a task between
-- lists, Task/Choose about the choice of the highest priority, Task/Block about blocking the
-- current task; Task/Sleep is about `os_task_delay`, Task/Await about `os_task_wait_for_msg`.
-- Task/Awake, Task/Wake, Task/First and Task/Due are about the loop of the tick, Task/Pass,
-- Task/Advance and Task/Robin about what comes before and after it, Task/Clock about the tick as a
-- whole, Task/Stack about the first stack frame.
--
-- Cpu: AK-mOS/Src/os_cpu.c and AK-mOS/Inc/os_cpu.h, the interrupt handlers, on the state of Task.
-- The assembly is read instruction by instruction. Cpu/Registers and Cpu/Switch are about the
-- context switch, Cpu/Start about the first task.
--
-- System: the rest of AK-mOS/Src/os_timer.c and `os_init` of AK-mOS/Src/os_kernel.c, on the state
-- of Task joined with that of Timer. A timer's callback is a function of the application, and a
-- parameter; as it may start timers, the rounds of the loop of `os_timer_processing` are one, too.
-- System/Init is about `os_init`.
--
-- Kernel: AK-mOS/Src/os_kernel.c, the nested critical sections.
--
-- Base: the shared numbers, tests, sequences, 32-bit arithmetic, and commands. A command ends with
-- a result, with a fault (a NULL pointer is followed, or an array is left), or hangs: each loop of
-- the source is a recursion on a number of rounds, and `hang` is what it gives when they run out.
-- Every theorem on a loop states that it returns, so the rounds suffice: a list of n items is
-- walked in n + 1 rounds, a byte is searched in 8, and the heap of 3072 bytes with headers of 12
-- has room for at most 256 blocks, which 257 rounds see (258 from `mem_blk_start` on).
--
-- Where the linker puts `mem_heap` and `mem_blk_start` is a parameter (`Layout`); what is asked of
-- it is the record `IsLayout`. Addresses, `size_t` and `uint32_t` are 32 bits wide, and arithmetic
-- on them wraps. The loop of the tick is given one round more than there are delayed tasks.
-- `os_assert` only writes to the log, and is left out.
--
-- A TCB is in memory of the heap, but its fields, the words of stacks and the headers of the heap
-- are kept apart by kind.
--
-- Not modelled: `os_run` of os_kernel.c, which calls `os_task_start` and then leaves the main stack
-- in assembly; the set-up of the tick interrupt, which writes peripheral registers, and the endless
-- loops of the idle and the timer task; logging; the sample's task table; the allocator in the
-- `#else` branch of os_mem.c, which is not compiled.
pub mod Base
pub mod Kernel
pub mod Mem
pub mod Msg
pub mod OsList
pub mod Prio
pub mod Timer
pub mod Task
pub mod Cpu
pub mod System
