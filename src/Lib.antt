-- ===== src/Lib.antt =====
-- A verification library of the trading exchange: a limit order book that matches orders by price
-- and time, on intrusive queues of orders, whose memory is a pool with a free list.
--
-- The parts, and the files that model them:
-- - project/order.hpp, project/order_type.hpp: Order (the record `Order`, decreaseSize as
--   `decrease_size`). Order/Memory and Order/Access are the pool of orders as a memory, with the
--   reads and writes of whole orders. Order/Text is toString.
-- - project/intrusive_queue.hpp: Queue (`append`, `remove`, `pop`, `peek`, `empty`). It sees the
--   items through the interface `NodeMemory`, which the pool of orders fills. Queue/Seg says what a
--   queue of given items looks like in memory.
-- - project/mem_pool.hpp: Pool (`mem_pool` for the constructor, `allocate`, `deallocate`), over any
--   type of objects whose storage overlays an index (`Overlay`). Pool/FreeList says what a pool
--   with a given free list looks like.
-- - project/order_book.hpp, project/order_book.cpp: Book (`order_book` for the constructor,
--   `add_order`, `cancel_order`, `match_bid_order`, `match_ask_order`, `match_at_level`). std::map
--   is an association list in ascending order of prices (Book/Levels). Book/Rows and Book/Sweep
--   give the matching rule on plain lists, to which the code is compared; Book/Match has the
--   invariant `IsBook` of the whole book; Book/Reach and Book/Uncrossed have sequences of calls,
--   Book/Ledger where the slots of the pool are after them, Book/RoundTrip an addition and its
--   cancellation, Book/Recovery a cancellation and an addition, Book/Stale the cancellation of a
--   filled order, Book/Depth and Book/Table the numbers of toString, Book/Text and Book/Lines its
--   text. Book/Limits tells what an order may trade with, Book/Filled how much of it addOrder
--   fills, Book/Best the best prices and Book/Shown what toString is to write, by the rows of the
--   book alone.
-- - project/mem_pool_separate_free_structure.hpp: SeparatePool.
-- - project/random_order_generator.hpp: RandomOrder, with the draws of the random devices as
--   arguments.
-- - project/entrypoint.cpp: Simulation, the loop of `main` with its draws as arguments. The
--   pointers that it keeps are those of Simulation/Tracking and Simulation/Dangling.
--   Simulation/Course has the invariant of its rounds, Simulation/Round a round and Simulation/Main
--   the whole run.
-- - project/mem_pool_benchmark.cpp, project/mem_pool_separate_free_structure_benchmark.cpp: Bench,
--   the workloads on either pool and on the heap, and `run_benchmark` (Bench/Cold, Bench/Main); the
--   hardware counter and the draws are arguments. The interface `PoolLaws` (Bench/Laws) is what a
--   pool promises to its users; both pools fill it (Bench/Instances). The workloads are proved from
--   `LiveLaws` alone, which a pool (Bench/LivePool) and the heap (Bench/LiveHeap) meet. The pools
--   keep no record of which of their objects live, so the workloads run on a pool beside such a
--   record (Bench/Lifetimes), where a double deallocation, or a read of an object that was given
--   back, is a fault. Bench/Report is what is printed, with `main`, and Bench/Whole has the
--   programs as a whole.
-- - examples/container_benchmark.cpp: Containers, the workloads on a vector, a map and an unordered
--   map and `run_benchmark` (Containers/Run). `std::lower_bound` is the search by halving, with a
--   round for each entry; `std::sort` is an insertion sort; the iteration order of an unordered map
--   is an argument. Containers/Stages and Containers/Whole have the stages of a benchmark and what
--   each adds to the sink; Containers/Report is what is printed, with `main`, and
--   Containers/Printed has the program.
-- - Base has shared names, tests on numbers, list lemmas, commands (Base/Cmd), output (Base/Output)
--   and the lines of a text (Base/Text); Tests has concrete runs and states.
--
-- A pointer is an index into the pool, and null is `none`. A command on a memory that returns `none`
-- is undefined behaviour, such as a read through a dangling pointer, or has run out of fuel.
-- `Returns P` holds of a run that is defined and ends with `P`. `matchAtLevel` has a round for each
-- order of the level and one more, the loops of `matchBidOrder` and `matchAskOrder` a round for each
-- level and one more: each round takes away an order or a level, or is the last. uint32_t and size_t
-- wrap at 2^32 and 2^64 where the code can reach them; order identifiers and prices are only copied and
-- compared.
--
-- Not modelled: log lines (spdlog), which have no effect on the state; the texts of fmt and the doubles,
-- which are an argument (`Format` in Order/Text, for both toString); the hardware counter
-- (common/perf_utils.h), which is an argument of the benchmarks, and the clock (common/time_utils.h); the
-- threads of examples/thread_example.cpp, which only write and sleep. Of what the benchmarks print, the
-- widths of the fields are kept and the digits left to the library. The heap of the benchmarks never runs
-- out of memory.
pub mod Base
pub mod Order
pub mod Queue
pub mod Pool
pub mod Book
pub mod SeparatePool
pub mod RandomOrder
pub mod Simulation
pub mod Bench
pub mod Containers
pub mod Tests
