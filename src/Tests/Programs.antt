-- ===== src/Tests/Programs.antt =====
-- The theorems on the programs of the benchmarks, with keys that are not shuffled.
use cpp_trading_exchange.Base.{ℕ, ◌*◌, ◌<◌, Bool, true, some, ◌∷◌, [], arith}
use mathlib.Core.List.Permᴰ
use cpp_trading_exchange.Base.Cmd.{Returns}
use cpp_trading_exchange.Pool.FreeList.{range}
use cpp_trading_exchange.Bench.{Order, Bench}
use cpp_trading_exchange.Bench.Heap.{Heap}
use cpp_trading_exchange.Bench.Report
use cpp_trading_exchange.Bench.Report.{pool_notes, separate_notes, separate_main}
use cpp_trading_exchange.Bench.Printing.{SameHeap, Reports}
use cpp_trading_exchange.Bench.Whole.{pool_main_lem, separate_main_lem}
use cpp_trading_exchange.Base.{replicate}
use cpp_trading_exchange.Containers.{Table}
use cpp_trading_exchange.Containers.Report as ContainerReport
use cpp_trading_exchange.Containers.Printed.{Printed, container_main_lem}

abbrev steady : ℕ → ℕ
steady i = 7 * i

abbrev heads : ℕ → Bool
heads i = true

abbrev first_pick : ℕ → ℕ → ℕ
first_pick i k = 0

abbrev first_pick-lt : (i k : ℕ) → 0 < k → first_pick i k < k
first_pick-lt i k h = omega (arith, h)

abbrev a_blank : Order
a_blank = record { order_id = 0; price = 0; qty = 0; side = 0 }

-- A heap with an object of another part of the program.
abbrev a_heap : Bench Heap
a_heap = record { memory = some a_blank ∷ []; sink = 0; readings = 0 }

pool_main_example :
    Returns
      (λ output b'. SameHeap a_heap b' × Reports "MemPool" pool_notes output b')
      (Report.main steady heads first_pick (range 0) a_heap)
pool_main_example =
    pool_main_lem steady heads first_pick first_pick-lt (range 0) (λ n. Permᴰ.refl (range 0 n))
      a_heap

separate_main_example :
    Returns
      (λ output b'.
        SameHeap a_heap b' × Reports "MemPoolSeparateFreeStructure" separate_notes output b')
      (separate_main steady heads first_pick (range 0) a_blank a_heap)
separate_main_example =
    separate_main_lem steady heads first_pick first_pick-lt (range 0) (λ n. Permᴰ.refl (range 0 n))
      a_blank a_heap

abbrev in_order : Table → Table
in_order m = m

abbrev a_bench : Bench (Unit {0})
a_bench = record { memory = tt; sink = 0; readings = 0 }

container_main_example :
    Returns
      (Printed (range 0) 100 100000 10000000 a_bench)
      (ContainerReport.main steady (replicate 128 0) in_order (range 0) a_bench)
container_main_example =
    container_main_lem steady 128 in_order Permᴰ.refl (range 0) (λ n. Permᴰ.refl (range 0 n))
      a_bench
