-- ===== src/Bench.antt =====
-- project/mem_pool_benchmark.cpp and project/mem_pool_separate_free_structure_benchmark.cpp: the
-- workloads, which are the same for each way to allocate. The hardware counter is a function from the
-- number of a reading, the draws of the random engine are functions of the round.
pub mod Heap
pub mod Spread
pub mod Laws
pub mod LivePool
pub mod Lifetimes
pub mod LiveHeap
pub mod Churn
pub mod Pools
pub mod Separate
pub mod Instances
pub mod Calls
pub mod Cold
pub mod Main
pub mod Select
pub mod Bursts
pub mod Sequence
pub mod Suite
pub mod Report
pub mod Printing
pub mod Whole
use cpp_trading_exchange.Base.{
  ℕ, zero, suc, ◌+◌, ◌-◌, ◌*◌, ◌/◌, ◌%◌, ◌^◌, Bool, true, false, ◌&&◌, not, Option, none, some,
  List, [], ◌∷◌, ◌++◌, length, get_elem?, set,
}
use cpp_trading_exchange.Base.Cmd.{Cmd, pure, fault, deref, ◌>>=◌, ◌>>◌}

abbrev pub uint64 : ℕ
uint64 = 2 ^ 64

pub record Order : Type 0 where
  pub order_id : ℕ
  pub price : ℕ
  pub qty : ℕ
  pub side : ℕ

-- `(i, i * 100, i * 10, i & 1)`
unfoldable pub order_of : ℕ → Order
order_of i = record { order_id = i; price = i * 100 % uint64; qty = i * 10 % uint64; side = i % 2 }

-- A way to allocate: `allocate` may return null, `load` is a read through the pointer.
pub record Allocator (M : Type 0) : Type 0 where
  pub allocate : Order → Cmd M (Option ℕ)
  pub load : ℕ → Cmd M Order
  pub deallocate : ℕ → Cmd M (Unit {0})

-- The state of a benchmark: `readings` counts the reads of the hardware counter.
pub record Bench (M : Type 0) : Type 0 where
  pub memory : M
  pub sink : ℕ
  pub readings : ℕ

unfoldable pub in_memory : {M A : Type 0} → Cmd M A → Cmd (Bench M) A
in_memory c b = elim (c b.memory) [ none ↦ none | some (a, m) ↦ some (a, record b { memory = m }) ]

unfoldable pub add_to_sink : {M : Type 0} → ℕ → Cmd (Bench M) (Unit {0})
add_to_sink n b = some (tt, record b { sink = (b.sink + n) % uint64 })

-- `v.back()`, undefined where `v` is empty.
unfoldable pub back : {A : Type 0} → List A → Option A
back [] = none
back (x ∷ []) = some x
back (x ∷ y ∷ xs) = back (y ∷ xs)

unfoldable pub pop_back : {A : Type 0} → List A → List A
pop_back [] = []
pop_back (x ∷ []) = []
pop_back (x ∷ y ∷ xs) = x ∷ pop_back (y ∷ xs)

-- `live[idx] = live.back(); live.pop_back();`
unfoldable pub swap_out : {A : Type 0} → ℕ → List A → List A
unfolding back pop_back
swap_out idx live = elim (back live) [ none ↦ live | some x ↦ pop_back (set live idx x) ]

module _ {M : Type 0} (ticks : ℕ → ℕ) where
  -- `Common::rdtsc()`
  unfoldable pub rdtsc : Cmd (Bench M) ℕ
  rdtsc b = some (ticks b.readings, record b { readings = b.readings + 1 })

  -- `Common::rdtsc() - start`
  unfoldable pub elapsed : ℕ → Cmd (Bench M) ℕ
  unfolding rdtsc
  elapsed start = do now ← rdtsc; pure ((now + uint64 - start) % uint64)

module _ {M : Type 0} (a : Allocator M) (ticks : ℕ → ℕ) where
  -- The body of a loop of deallocations: `sink += ptrs[i]->order_id`, and the deallocation.
  unfoldable pub deallocate_at : ℕ → List (Option ℕ) → Cmd (Bench M) (Unit {0})
  unfolding in_memory add_to_sink
  deallocate_at i ptrs = elim (get_elem? ptrs i) [
    | none ↦ fault
    | some p ↦ do
      ptr ← deref p
      order ← in_memory (a.load ptr)
      add_to_sink order.order_id
      in_memory (a.deallocate ptr)
  ]

  unfoldable pub allocate_loop : ℕ → ℕ → List (Option ℕ) → Cmd (Bench M) (List (Option ℕ))
  unfolding in_memory order_of
  allocate_loop zero i ptrs = pure ptrs
  allocate_loop (suc rounds) i ptrs = elim (get_elem? ptrs i) [
    | none ↦ fault
    | some _ ↦ do
      p ← in_memory (a.allocate (order_of i))
      allocate_loop rounds (i + 1) (set ptrs i p)
  ]

  unfoldable pub bench_allocate : List (Option ℕ) → ℕ → Cmd (Bench M) (List (Option ℕ) × ℕ)
  unfolding rdtsc elapsed allocate_loop
  bench_allocate ptrs n = do
    start ← rdtsc ticks
    ptrs' ← allocate_loop n 0 ptrs
    cycles ← elapsed ticks start
    pure (ptrs', cycles)

  unfoldable pub deallocate_loop : ℕ → ℕ → List (Option ℕ) → Cmd (Bench M) (Unit {0})
  unfolding deallocate_at
  deallocate_loop zero i ptrs = pure tt
  deallocate_loop (suc rounds) i ptrs = deallocate_at i ptrs >> deallocate_loop rounds (i + 1) ptrs

  unfoldable pub bench_deallocate : List (Option ℕ) → ℕ → Cmd (Bench M) ℕ
  unfolding rdtsc elapsed deallocate_loop
  bench_deallocate ptrs n = do start ← rdtsc ticks; deallocate_loop n 0 ptrs; elapsed ticks start

  unfoldable pub deallocate_each : List ℕ → List (Option ℕ) → Cmd (Bench M) (Unit {0})
  unfolding deallocate_at
  deallocate_each [] ptrs = pure tt
  deallocate_each (idx ∷ order) ptrs = deallocate_at idx ptrs >> deallocate_each order ptrs

  unfoldable pub bench_dealloc_random : List (Option ℕ) → List ℕ → Cmd (Bench M) ℕ
  unfolding rdtsc elapsed deallocate_each
  bench_dealloc_random ptrs order = do
    start ← rdtsc ticks
    deallocate_each order ptrs
    elapsed ticks start

  -- The loop that fills half of the pool.
  unfoldable pub prefill : ℕ → ℕ → List (Option ℕ) → Cmd (Bench M) (List (Option ℕ))
  unfolding in_memory order_of
  prefill zero i live = pure live
  prefill (suc rounds) i live = do
    p ← in_memory (a.allocate (order_of i))
    prefill rounds (i + 1) (live ++ p ∷ [])

  -- `if (p) live.push_back(p);`
  abbrev pub push_some : List (Option ℕ) → Option ℕ → List (Option ℕ)
  push_some live none = live
  push_some live (some p) = live ++ some p ∷ []

  abbrev pub is_empty : List (Option ℕ) → Bool
  is_empty [] = true
  is_empty (x ∷ xs) = false

  -- `coin i` says whether round `i` draws 0, `pick i n` is its draw below `n`.
  unfoldable pub churn_round :
      (ℕ → Bool) → (ℕ → ℕ → ℕ) → ℕ → List (Option ℕ) → Cmd (Bench M) (List (Option ℕ))
  unfolding deallocate_at swap_out in_memory order_of
  churn_round coin pick i live = elim (coin i && not (is_empty live)) [
    | true ↦ let idx = pick i (length live) in deallocate_at idx live >> pure (swap_out idx live)
    | false ↦ do p ← in_memory (a.allocate (order_of i)); pure (push_some live p)
  ]

  unfoldable pub churn_loop :
      (ℕ → Bool) → (ℕ → ℕ → ℕ) → ℕ → ℕ → List (Option ℕ) → Cmd (Bench M) (List (Option ℕ))
  unfolding churn_round
  churn_loop coin pick zero i live = pure live
  churn_loop coin pick (suc rounds) i live = do
    live' ← churn_round coin pick i live
    churn_loop coin pick rounds (i + 1) live'

  -- `for (auto* p : live) pool.deallocate(p);`
  unfoldable pub cleanup : List (Option ℕ) → Cmd (Bench M) (Unit {0})
  unfolding in_memory
  cleanup [] = pure tt
  cleanup (p ∷ live) = do ptr ← deref p; in_memory (a.deallocate ptr); cleanup live

  unfoldable pub bench_churn : (ℕ → Bool) → (ℕ → ℕ → ℕ) → ℕ → Cmd (Bench M) ℕ
  unfolding prefill rdtsc churn_loop elapsed cleanup
  bench_churn coin pick ops = do
    live ← prefill (ops / 2) 0 []
    start ← rdtsc ticks
    live' ← churn_loop coin pick ops 0 live
    cycles ← elapsed ticks start
    cleanup live'
    pure cycles
