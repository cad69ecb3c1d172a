-- ===== src/Tests/Workloads.antt =====
-- The theorems on the pools in use, on pools of two slots.
use cpp_trading_exchange.Base.{ℕ, ◌*◌, ◌≡◌, refl, Bool, true, some, List, [], ◌∷◌, arith}
use cpp_trading_exchange.Base.Cmd.{Returns}
use cpp_trading_exchange.Pool.{MemPool, mem_pool}
use cpp_trading_exchange.Pool.FreeList.{range}
use cpp_trading_exchange.SeparatePool.{MemPoolSeparateFreeStructure, separate_pool}
use cpp_trading_exchange.Bench.{Order, Bench}
use cpp_trading_exchange.Bench.Pools
use cpp_trading_exchange.Bench.Pools.{bench_overlay}
use cpp_trading_exchange.Bench.Separate
use cpp_trading_exchange.Bench.Spread.{Spread}
use cpp_trading_exchange.Bench.Calls.{Call, takes, gives, run_calls, served, pools-agree}

abbrev an_order : ℕ → Order
an_order i = record { order_id = i; price = 100; qty = 10; side = 0 }

abbrev first_pick : ℕ → ℕ → ℕ
first_pick i k = 0

abbrev heads : ℕ → Bool
heads i = true

abbrev steady : ℕ → ℕ
steady i = 7 * i

abbrev backwards : List ℕ
backwards = 1 ∷ 0 ∷ []

-- Three allocations of two slots, then slot 0 goes back and is served again.
abbrev some_calls : List Call
some_calls =
    takes (an_order 1) ∷ takes (an_order 2) ∷ takes (an_order 3) ∷ gives 0 ∷ takes (an_order 4) ∷ []

pools-agree_example :
    (p : MemPool Order) × (q : MemPoolSeparateFreeStructure Order) × (mem_pool bench_overlay 2
      ≡ some p)
    × (separate_pool (an_order 0) 2 ≡ some q)
    × Returns
        (λ ps _. ps ≡ served some_calls (range 0 2))
        (run_calls Pools.pool_allocator some_calls p)
    × Returns
        (λ ps _. ps ≡ served some_calls (range 0 2))
        (run_calls Separate.pool_allocator some_calls q)
pools-agree_example = pools-agree (an_order 0) 2 some_calls (omega arith) (omega arith, refl, tt)

abbrev a_pool : MemPool Order
a_pool = record { store = []; next_free_index = 0 }

abbrev a_separate_pool : MemPoolSeparateFreeStructure Order
a_separate_pool = record { store = []; next_free_index = 0 }

abbrev fresh : {M : Type 0} → M → Bench M
fresh m = record { memory = m; sink = 0; readings = 0 }
