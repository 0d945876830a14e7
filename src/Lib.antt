-- ===== src/Lib.antt =====
-- Verification of the programs in `src/` of the repository that have logic of their own. Most of
-- the test programs only drive the submodules (`statefultask`, `threadpool`, `evio`, `utils`, ...),
-- which the repository refers to and does not hold; they are not modelled. The programs do not
-- call each other, and each is a folder of its own here.
--
-- TreeProp: `src/tree_prop.cc`, a tree of indices to the smallest of four values, and how it is
-- brought up to date when one value changes. `cache` and `t` are records; `is_sane`, the two loops
-- of `main` (`less_loop`, `greater_loop`), the step `change` and the whole `main` are
-- functions. The loops go from a leaf up to the root, three nodes, and this is their fuel.
--
-- RwLock: `src/rwspinlock_test.cxx`, the states of a read-write spin lock by four counters:
-- `State` with `is_illegal`, `is_stable` and `follow_up`, `apply`, and a round of the second loop
-- of `main`, which is `attempt` in RwLock/Attempt. An assertion, `DoutFatal` and a counter
-- below zero are outcomes of their own. RwLock/Nodes has the lists of nodes, `find_node` and the
-- visit of one node; the range-for over `stable_nodes` around it is not modelled, since the visit
-- appends to that list.
--
-- Counters: `src/wait_signal_test2.cxx`, a task with four condition counters of three values, and
-- the table of `main` with the next state for every state and operation: `Task` with `wait`,
-- `signal`, `reset` and its tests in Counters, the table in Counters/Graph. Counters/Operations
-- carries out one sequence of operations by the table; `MultiLoop`, which makes up the sequences,
-- is in a submodule: they come in as a list. Counters/Results has the map that compares them.
--
-- WaitSignal: `src/wait_signal_test.cxx`, the class `Test`. Its base class `AIStatefulTask` is in
-- the submodule `statefultask`, and is a parameter, the record `StatefulTask`. The record
-- `FollowsDiagram` in WaitSignal/Diagram says what the tests rely on, after the comment above
-- `assert_IDLE`. The cases of `do_test` are lists of statements in WaitSignal/Cases, with an
-- interpreter in WaitSignal.
--
-- RewriteHeader: `src/rewrite_header.cxx`, which rewrites the comment at the head of a file: the
-- functions on text in RewriteHeader/Text, the years of the copyright line in
-- RewriteHeader/Years, the class `Header` in RewriteHeader/Header, and `process` in
-- RewriteHeader/Process. The regular expressions are those of `std::regex`, and a parameter, the
-- record `Patterns`. Reading past the end of the lines is the result `undefined`. The loop
-- `for (;;)` takes as fuel one more than the number of lines, and every round but the last uses up
-- a line. RewriteHeader/Main is `main`, over the file system `FileSystem` and what the library finds
-- on the command line, `Variables`, if it does not throw; names may lead to the same file, a read may
-- fail behind `open`, and a write may stay in a buffer until the stream is closed.
--
-- Fiboquick: `src/fiboquick.cxx`, the recursion `fibo` with its static array, which is a function
-- that each call takes and returns. Sums are taken modulo 2 to the power 64. The fuel is the depth of
-- the calls.
--
-- TscKmod: `src/kmod/tsc_kmod.c`, a kernel module that measures reads of the time stamp counter:
-- `Filltimes` and `var_calc` in TscKmod, `hello_start` with its allocations and statistics in
-- TscKmod/Start. A `uint64_t` is a number with its wrap-around modulo 2 to the power 64 written out.
-- The readings of the inline assembly, and which calls of `kmalloc` succeed, are parameters; the
-- blocks are numbered by the calls. Of what is printed the report at the end and the messages about
-- `kmalloc` are modelled. The loops are counted, for 100 rows of 100000 times.
--
-- HelloWorld: `src/helloworld.cxx`, two tasks that bump each other, over the same base class as
-- WaitSignal. A step is what a thread does from one access to a shared variable to the next, so that
-- `bump` and the wait for a bump are two steps each, in any order. The use of a task behind its
-- destructor is a fault that ends the run.
--
-- Fibonacci: `src/fibonacci.cxx`, tasks that each create two others and wait for them, over the same
-- base class. The tasks are a tree; a step is one of any task in it, from one access to what the tasks
-- share to the next, and a path in the tree says whose. A task that has finished signals the one that
-- ran it. An `int` is a number without a bound.
--
-- Core: `src/core.cc`, two threads that compare time stamps of two cores. What the assembly in the loop
-- of `f` and the loads of the other thread's buffer read is a list of readings. A 64-bit integer is a
-- number below 2 to the power 64, also a signed one. The limit of the loop is a parameter, 1000000 in
-- `f`. Core/Offset has the offset that `main` makes of what both threads keep. The statistics that are
-- printed, and the assertion on one of them, are not modelled.
--
-- Timers: `src/timer_test.cxx`, as it is with `TEST_ALL_THREE`: timers in a multimap
-- (`RunningTimersImpl<INTERVALS, 0>`, Timers/Multimap) and the same timers in a priority queue
-- (`RunningTimersImpl<INTERVALS, 1>`, Timers/PriorityQueue), whose order of equal points in time is
-- left open by the interface `IsPriorityQueue`. A timer is its place in the vector `timers`, a
-- point in time a number, and an iterator the number of its node. Timers/Counted is about the
-- counters that `main` prints. A callback does nothing or stops a timer. Timers/Expiring says what
-- `expire_next` is to do without regard to how the timers are kept; the fuel of its loops is the
-- number of entries. Timers/Generate has `generate` over both; the random numbers and durations are
-- parameters. Implementation 2 is one of the submodule `threadpool`, and is not modelled.
--
-- Benchmark: `src/benchmark.cxx`. Benchmark/NowOffset has `Benchmark::calibrate_now_offset`, with fuel
-- for its rounds. Benchmark/Delta has `Benchmark::calibrate_delta`: the choice of a data point from
-- repeated measurements, the two histograms and the rounds until they agree. `eda::MinAvgMax` is an
-- interface; the readings are parameters, and a round is the list of what it measures. The rounds
-- are as many as the list has: in the program they go on until the deltas agree.
-- Benchmark/CyclesPerNs has `calibrate_cycles_per_ns` up to the average of its quotients of doubles.
-- The constructors and the plots are not modelled.
--
-- Not modelled: programs that only drive classes of the submodules and print what these do, such as
-- `src/objectqueue.cxx`, `src/runthread.cxx`, `src/timer_thread.cxx`, `src/threadpool.cxx` and the
-- tests of tasks and sockets; those in which threads race to measure time, such as
-- `src/mutex_benchmark.cxx`; and `src/genmc_spinsemaphore_test.c`, whose functions are generated
-- from a submodule. Everywhere the output is left out.
--
-- Base has lists, tests on numbers and their lemmas, on the numbers that `omega` reads, and Examples
-- the tests.
mod Base
pub mod RwLock
pub mod Counters
pub mod TreeProp
pub mod WaitSignal
pub mod RewriteHeader
pub mod Fiboquick
pub mod TscKmod
pub mod HelloWorld
pub mod Benchmark
pub mod Fibonacci
pub mod Core
pub mod Timers
mod Examples
