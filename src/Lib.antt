-- ===== src/Lib.antt =====
-- MultiProcess, a small x86 teaching kernel: contiguous physical frames, virtual memory pools,
-- paging, threads and a round robin scheduler. This library models its C++ code.
--
-- ContFramePool (cont_frame_pool.C and .H): the pools of physical frames. `construct`,
-- `get_frames`, `mark_inaccessible`, `release_own` (`_release_frames`), `release_frames` and
-- `needed_info_frames` are the methods; the state is the record `ContFramePool`, whose bitmap is a
-- function from the index of a byte to the byte. The static list of pools is a list, the pool that
-- was constructed last first. The bitmaps of two pools are taken not to overlap. Bits has the
-- encoding, Count the count of free frames and the invariants, Scan and Get the allocation,
-- Release and Chain the release, Boot the constructor, Hole the memory hole, Invariant the
-- preservation, Reachable any history of calls.
--
-- VmPool (vm_pool.C and .H): the virtual memory pools, two tables of regions. The tables are lists
-- of 512 entries; that they lie in the first two pages of the pool itself, and that the writes to
-- them go through the page tables, is not modelled. `PageTable::free_page` is a parameter of
-- `release`. A release in those two pages, which would unmap the tables, is therefore left out of
-- the theorems on `release`. Regions has the invariant, Allocate and Release the methods, Return,
-- Access and Reachable what they do together.
--
-- Scheduler (scheduler.C and .H, with `dispatch_to` of thread.C and the interrupt flag of
-- machine.C): threads are addresses, and their `next` links a function. A context switch is a
-- change of `current`; what the thread switched to runs at once, the end of its own `yield`, is
-- part of the step. Fifo has the queue, Stale its stale links, RoundRobin the change of threads,
-- Quanta the timer, Terminate the removal of a waiting thread, Exit the end of the running one,
-- Rotation and Ring the ring that the links close to, Population how often a thread is in a list.
--
-- Words are natural numbers with the wrap of 32 bits written out. Loops with a bound known at
-- their start recur on the rounds left, so they need no fuel: the `do` loop of `_release_frames`
-- has as many rounds as `fno < nframes` allows. The walk of `terminate` takes fuel, and `none` is
-- a walk that does not end; a round for each thread before the one sought and one more is enough.
-- The loop over the pages of a region takes one round for each whole page and one more.
--
-- PageTable (page_table.C and .H): Recursive has the window through which `PTE_address` reaches
-- the tables, Directory the constructors, Fault, Handle and Outcome the fault handler. The memory
-- holds the directories and tables by physical address; the translation of the processor is a
-- parameter, `mmu`, with its documented walk over two levels as a hypothesis. Entries that a
-- translation cache holds are not modelled. The handler reads the directory of the current page
-- table, and reaches the new tables through the register `cr3`; the two are separate arguments,
-- since they differ when a thread runs for the first time. The handler's loop fills 1024 entries,
-- one round each.
--
-- Idt (idt.C), Gdt (gdt.C), Interrupts (interrupts.C) and Exceptions (exceptions.C): the
-- descriptor tables, with the processor's reading of them, and the tables of handlers. The
-- addresses of the assembly stubs are parameters.
--
-- Timer (simple_timer.C) counts interrupts. Console (console.C, with memcpy and memsetw of
-- utils.C): Screen has scrolling, Putch characters and Puts strings.
--
-- Thread (thread.C): the stack that `setup_context` builds. Its pushes are a list of words, in
-- order.
--
-- Keyboard (simple_keyboard.C): the interrupts that arrive while `read` loops are a list.
--
-- Utils (utils.C): memset, strlen and strcpy, the string loops on fuel of one round for each
-- character and one for the 0. EarlyPools (frame_pool.C, mem_pool.C): the pools that only count
-- up.
--
-- Kernel (kernel.C): the constants of the memory layout, `main` in parts, the devices and
-- handlers, the frame pools, the first page table, and the start of the threads, and the functions
-- of the threads up to any burst, with round robin compiled in. SetUp has the first part,
-- TestThreads the functions `test1` to `test3`, which are not started; Handlers, Boot, Paging,
-- Threads and Output have the theorems. Heap (kernel.C): `operator new` and `operator delete`.
-- `Thread.Life` has the constructors and the destructor of thread.C over a state of all pools; a
-- thread's stack is one memory in it, since the address spaces of different page tables are not
-- told apart. `Scheduler.Exit` has the end of a thread.
--
-- Console.Format has the printing of numbers and `kprintf` of console.C, over `int2str` and
-- `uint2str` of utils.C, whose loops have ten rounds; the buffer of 15 bytes is the fuel of
-- reading a string back. Assert (assert.C) prints the message of a failed assertion. Irq (irq.C)
-- is the list of writes that sets up the interrupt controllers, whose documented behaviour is a
-- hypothesis on a parameter. PageTable.Control has the static members and control registers,
-- PageTable.Boot the first page table, PageTable.Access and Return how faults, virtual pools and
-- `free_page` fit together.
--
-- Thread.Switch has `dispatch_to` with the page table and the memory pool that it puts in force,
-- which Scheduler leaves out; `threads_low_switch_to` of threads_low.asm is taken as a change of
-- the register cr3 and of the running thread.
--
-- Kernel.Main has `main` as one function of what is linked and of the machine before; Objects,
-- Creation and Ownership say where its objects stand, Started what it leaves. Thread.End and
-- Kernel.Exit have the end of a thread, in the memory pools and in the whole kernel. Kernel.Life
-- has the whole kernel behind `main` as interrupts and returns of threads come in any order,
-- Sound, Stock, Reclaim and Returns its invariant, Stock for the kernel's memory pool.
-- Kernel.Multitasking has the steps of the scheduler alone behind `main`, in any order: timer
-- interrupts, and the calls by which threads give the CPU away, return, are made and are
-- terminated; Held and Conserved have their invariant, Served the service of all threads, History
-- one run. In all of these a step is a whole call. That no timer interrupt comes inside one is an
-- assumption: the interrupts are enabled between `resume` and `yield`, and while the control
-- thread deletes a thread. Nested has the interrupt between `resume` and `yield`, which loses a
-- thread.
--
-- Not modelled: the messages that the parts print on their way, other than those of the threads'
-- functions and of assertions; the assembly code, but for the registers that a switch changes;
-- `move_cursor` of console.C, whose two writes only select registers of the display; the port
-- functions of machine.C and utils.C, which are single instructions; `abort`, an endless loop. The
-- frame that `new PageTable()` takes for its directory is left out of Thread.Life. In Kernel.Main,
-- the page faults on the way and the entries of the threads' page tables.
pub mod Assert
pub mod Base
pub mod Console
pub mod ContFramePool
pub mod EarlyPools
pub mod Exceptions
pub mod Gdt
pub mod Heap
pub mod Idt
pub mod Interrupts
pub mod Irq
pub mod Kernel
pub mod Keyboard
pub mod PageTable
pub mod Scheduler
pub mod Thread
pub mod Timer
pub mod Utils
pub mod VmPool
