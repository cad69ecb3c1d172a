-- ===== src/Bench/Calls.antt =====
-- Any sequence of calls on a pool, against its abstract specification: a stack of free slots.
use cpp_trading_exchange.Base.{ℕ, ◌<◌, ◌≡◌, refl, false, Option, none, some, List, [], ◌∷◌, has}
use cpp_trading_exchange.Base.Cmd.{Cmd, pure, ◌>>=◌, ◌>>◌, Returns, returns, Returns-bind}
use cpp_trading_exchange.Pool.{MemPool, mem_pool}
use cpp_trading_exchange.Pool.FreeList.{range}
use cpp_trading_exchange.Pool.Build.{mem_pool_lem}
use cpp_trading_exchange.SeparatePool.{MemPoolSeparateFreeStructure, separate_pool}
use cpp_trading_exchange.SeparatePool.Build.{separate_pool_lem}
use cpp_trading_exchange.Bench.{Order, Allocator}
use cpp_trading_exchange.Bench.Pools
use cpp_trading_exchange.Bench.Pools.{bench_overlay}
use cpp_trading_exchange.Bench.Separate
use cpp_trading_exchange.Bench.Laws.{PoolLaws}
use cpp_trading_exchange.Bench.Instances.{pool_laws, separate_laws}

pub data Call : Type 0 where
  takes : Order → Call
  gives : ℕ → Call

-- The pointers that the calls return.
unfoldable pub run_calls : {M : Type 0} → Allocator M → List Call → Cmd M (List (Option ℕ))
run_calls a [] = pure []
run_calls a (takes t ∷ calls) = do p ← a.allocate t; ps ← run_calls a calls; pure (p ∷ ps)
run_calls a (gives i ∷ calls) = a.deallocate i >> run_calls a calls

-- The specification: a slot is served from the top of the stack, and goes back there.
unfoldable pub served : List Call → List ℕ → List (Option ℕ)
served [] free = []
served (takes t ∷ calls) [] = none ∷ served calls []
served (takes t ∷ calls) (i ∷ free) = some i ∷ served calls free
served (gives i ∷ calls) free = served calls (i ∷ free)

-- Only slots of the pool that are in use are given back.
abbrev pub IsProper : ℕ → List Call → List ℕ → Type 0
IsProper n [] free = Unit
IsProper n (takes t ∷ calls) [] = IsProper n calls []
IsProper n (takes t ∷ calls) (i ∷ free) = IsProper n calls free
IsProper n (gives i ∷ calls) free = (i < n) × (has i free ≡ false) × IsProper n calls (i ∷ free)

module _ {M : Type 0} (a : Allocator M) (n : ℕ) (laws : PoolLaws a n) where
  run_calls-served :
      (calls : List Call) (free : List ℕ) (m : M)
      → laws.Owns m free
      → IsProper n calls free
      → Returns (λ ps m'. ps ≡ served calls free) (run_calls a calls m)
  unfolding run_calls served
  run_calls-served [] free m owns proper = returns refl
  run_calls-served (takes t ∷ calls) [] m owns proper =
      Returns-bind (laws.allocate-nil m t owns) λ p m1 (e, owns1).
        Returns-bind (run_calls-served calls [] m1 owns1 proper)
          λ ps m2 same. rw (e, same) (returns refl)
  run_calls-served (takes t ∷ calls) (i ∷ free) m owns proper =
      Returns-bind (laws.allocate-cons m t i free owns) λ p m1 (e, owns1).
        Returns-bind (run_calls-served calls free m1 owns1 proper)
          λ ps m2 same. rw (e, same) (returns refl)
  run_calls-served (gives i ∷ calls) free m owns (low, miss, proper) =
      Returns-bind (laws.deallocate-live m i free owns low miss)
        λ _ m1 owns1. run_calls-served calls (i ∷ free) m1 owns1 proper

-- From their constructors on, the two pools never fault and return the same pointers, call by call,
-- for any sequence of allocations, also past exhaustion, and deallocations of slots in use: those
-- that a stack of the slots, the lowest on top, would serve.
pub pools-agree :
    (blank : Order) (n : ℕ) (calls : List Call)
    → 0 < n
    → IsProper n calls (range 0 n)
    → (p : MemPool Order) × (q : MemPoolSeparateFreeStructure Order) × (mem_pool bench_overlay n
        ≡ some p)
      × (separate_pool blank n ≡ some q)
      × Returns (λ ps _. ps ≡ served calls (range 0 n)) (run_calls Pools.pool_allocator calls p)
      × Returns (λ ps _. ps ≡ served calls (range 0 n)) (run_calls Separate.pool_allocator calls q)
pools-agree blank n calls more proper =
    let (p, made_p, is_p, size_p) = mem_pool_lem bench_overlay n more in
    let (q, made_q, is_q, size_q) = separate_pool_lem blank n more in
    (
      p,
      q,
      made_p,
      made_q,
      run_calls-served Pools.pool_allocator n (pool_laws n) calls (range 0 n) p (is_p, size_p)
          proper,
      run_calls-served Separate.pool_allocator n (separate_laws n) calls (range 0 n) q
          (is_q, size_q) proper,
    )
