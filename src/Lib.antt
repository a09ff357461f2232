-- ===== src/Lib.antt =====
-- The User Space Firmware Simulation Testing Library (USFSTL): a model of its C code with the
-- theorems that make it correct.
--
-- Parts. Jobs are callbacks with a start time, a priority and a group; the scheduler (src/sched.c,
-- include/usfstl/sched.h) keeps them in one ordered list, runs the first, moves the clock, and may
-- have to ask an external scheduler for runtime. Such a scheduler can be a parent scheduler, the
-- wall clock, or the controller (control), which its clients reach by messages or through shared
-- memory (src/schedctrl.c). Programs call each other by name (src/rpc.c), and those of one
-- simulation take turns and share memory (src/multi*.c). Tasks and semaphores (src/task.c) stand on the scheduler. Devices
-- (src/vhost.c, and src/pci.c on it) take messages from rings, in the main loop (src/loop.c) or in
-- a job of the scheduler, and keep their clock in step with the controller's.
--
-- Files. Base holds shared names, list lemmas and the result type: a run either returns or ends in
-- usfstl_abort (include/usfstl/assert.h). Time is usfstl_time_cmp on the wrapping 64-bit clock.
-- Sched is the scheduler: a job is a number, its struct is looked up in the scheduler's `jobs`,
-- and being linked (`entry.next` not NULL) is being on one of the two lists. Sched/Advance holds
-- set_time, forward, sched_start, sched_next and the synchronisation points; Sched/Groups the
-- blocking of groups and of single jobs.
--
-- Sched/Link is usfstl_sched_link and its callbacks: the parent's state is in what the linked
-- scheduler's callbacks keep, and the parent's link job ends the wait.
--
-- Rand is the generator of src/rand.c with the arithmetic of C's int and uint32_t (Base/Int), and
-- Strings has strcmp and memcpy of src/string.c on lists of bytes.
--
-- Loop is src/loop.c: the entries of the main loop are numbers, as jobs are, and the system's
-- select is a parameter.
--
-- Links is include/usfstl/list.h on the pointers of entries, with addresses as numbers; the other
-- modules hold such a list as a List of the entries' numbers.
--
-- Task has the semaphores of src/task.c over the task scheduler: the post, which wakes a waiter,
-- the trywait, and the timed wait, with what blocks, resumes and ends tasks (Task/Wait). A task
-- has the number of its job. Running other tasks until a task goes on is a parameter.
--
-- Pci is src/pci.c: the configuration space, and in Pci/Dispatch the dispatch of messages, the
-- operations on the memory of a device, and the messages of the device. The responses given to
-- usfstl_vhost_user_send_response are kept in a list; an access beyond the memory of the
-- configuration space is an abort.
--
-- Wallclock is src/wallclock.c: the request and the wait as hooks of Sched over a timer, and the
-- system's clock as a parameter.
--
-- Vhost is the server of vhost-user devices in src/vhost.c: Vhost/Buffer takes descriptor chains
-- from a ring and gives buffers back, Vhost/Queue handles queues when they are kicked or in the
-- interrupt job, which is a job of Sched, Vhost/Message has the messages of the connection, and
-- Vhost/Iov the copies to and from scatter-gather lists. The guest's memory is seen as the
-- contents of the rings; an access behind the end of the array of queues is an abort.
--
-- SchedCtrl is src/schedctrl.c, a scheduler under an external controller: its clock, its requests
-- and its waits are hooks of Sched, and Shm has the protocol's messages and the shared memory.
-- What the main loop handles while it waits is a list of events, messages and others, and the
-- messages that are written are kept in a list. A memory access behind the last client's entry is
-- an abort.
--
-- Controller is control/main.c. A client has the number of its job, and what the main loop finds
-- to read is a list of events, too. The functions that call each other around the wait for a
-- message are given the ones with less fuel (Inner).
--
-- Rpc is src/rpc.c with src/rpc-rpc.c and the macros of include/usfstl/rpc.h: messages are bytes in
-- the byte order of the program that writes them (Rpc/Wire), a socket is what arrives at it and
-- what has been written, and a program (Program, Host) is given by its stubs, its callbacks and its
-- main loop, which is that of Loop. The functions of stubs are arguments and may use the whole
-- state. Rpc/Vectors has the loops of src/rpc-posix.c over the system's calls, whose results are a
-- list. The caller's loop has fuel for its passes; the theorem on it allows any but none.
--
-- Multi is the simulation of several programs: Multi itself the controller (src/multi-ctl.c), with
-- the jobs of participants in Sched, Multi/PtcSide a participant (src/multi-ptc.c), and
-- Multi/SharedMem the shared sections (src/multi-shared-mem.c). A call between programs is taken
-- to arrive whole and at once; those that arrive during a wait are a list, and those made are kept
-- in a list. The local participant has the number 0.
--
-- Alloc is src/alloc.c over the allocator of the C library (Allocator) and a hash table (Table), which
-- are arguments with the laws that the proofs use (IsAllocator, IsTable).
--
-- TestRun is the execution of test cases in src/testrun.c and the loop over them in src/main.c. What
-- a test does is a function that returns or jumps with a status, as longjmp does; the loop has fuel
-- for one round more than there are cases.
--
-- Function pointers are fields of `Hooks`, arguments of the operations; what they keep elsewhere
-- is the type `E`. Theorems over arbitrary callbacks assume `IsQuiet`: the callbacks return and
-- leave the jobs and the time alone. external_get_time is taken to read the clock and the
-- callbacks' own state only.
--
-- Bounds. Times are numbers below 2 ^ 64 and wrap; the order of the job list is stated for jobs
-- less than 2 ^ 63 ticks ahead of an instant, where usfstl_time_cmp is an order. A safe list walk
-- has one more step of fuel than the list has entries, which the walk's rule shows to be enough;
-- sched_next is followed for any number of rounds, and the wait of a linked scheduler for a number
-- of rounds that its theorem allows to be any but none. A queue of a device is handled with fuel
-- for the entries that are pending and the descriptors of the longest chain, and a message of
-- SchedCtrl is answered with fuel for the acknowledgements before its own, since each round takes
-- one of them. The fuel of Controller bounds the depth of calls and the rounds of each loop, and a
-- run that needs more is an abort.
--
-- Two counts that C keeps in an unsigned int, the length of a list and the offset in rpc_read, are not
-- wrapped: no list and no message of this program comes near 2 ^ 32.
--
-- A frozen scheduler with shared memory stores the offset when it reads the time;
-- schedctrl_get_time does, and the hook of Sched, which only reads, does not.
--
-- Not modelled: the controller's network (control/net.c), the contexts of tasks, the bytes of
-- vhost messages and the mapping of memory, the start and end of multi-participant tests,
-- options, sockets, printing, the watchdog, process control, and the copies of libbacktrace and
-- uthash.
pub mod Base
pub mod Time
pub mod Sched
pub mod Task
pub mod Loop
pub mod Links
pub mod Pci
pub mod Rand
pub mod Strings
pub mod Wallclock
pub mod Vhost
pub mod Shm
pub mod SchedCtrl
pub mod Controller
pub mod Rpc
pub mod Multi
pub mod Alloc
pub mod TestRun
