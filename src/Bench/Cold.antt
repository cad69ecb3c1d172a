-- ===== src/Bench/Cold.antt =====
-- The workload with a cold cache, and `run_benchmark`, of project/mem_pool_benchmark.cpp and
-- project/mem_pool_separate_free_structure_benchmark.cpp.
use cpp_trading_exchange.Base.{
  ℕ, zero, suc, ◌+◌, ◌-◌, ◌*◌, ◌/◌, ◌%◌, ◌^◌, Bool, Option, none, some, List, ltb, if◌then◌else◌,
  length, get_elem?, set, replicate,
}
use Prim.Native.Nat.{min}
use cpp_trading_exchange.Base.Cmd.{Cmd, pure, fault, ◌>>=◌}
use cpp_trading_exchange.Bench.{
  uint64, Allocator, Bench, order_of, in_memory, add_to_sink, rdtsc, elapsed, bench_allocate,
  bench_deallocate, bench_dealloc_random, bench_churn, cleanup,
}

-- 64 MB of zero bytes, which nothing writes to.
unfoldable pub g_flush_buffer : List ℕ
g_flush_buffer = replicate (64 * 2 ^ 20) 0

-- The sum of every 128th byte, in a `char`, kept here as its residue modulo 256.
unfoldable pub flush_loop : ℕ → ℕ → ℕ → List ℕ → ℕ
flush_loop zero i s buffer = s
flush_loop (suc fuel) i s buffer = elim (get_elem? buffer i) [
  | none ↦ s
  | some c ↦ flush_loop fuel (i + 128) ((s + c) % 256) buffer
]

-- `static_cast<uint64_t>` of a signed `char`.
unfoldable pub sign_extend : ℕ → ℕ
sign_extend s = if ltb s 128 then s else uint64 - 256 + s

-- A round for each byte of the buffer is more than enough.
unfoldable pub evict_cache : {M : Type 0} → List ℕ → Cmd (Bench M) (Unit {0})
unfolding flush_loop sign_extend add_to_sink
evict_cache buffer = add_to_sink (sign_extend (flush_loop (length buffer) 0 0 buffer))

abbrev pub k_cold_samples : ℕ
k_cold_samples = 256

-- The cycles of each workload.
pub record Timings : Type 0 where
  pub alloc : ℕ
  pub dealloc : ℕ
  pub dealloc_rand : ℕ
  pub churn : ℕ
  pub alloc_cold : ℕ

-- `total / count`, undefined for no samples.
unfoldable pub average : {M : Type 0} → ℕ → ℕ → Cmd (Bench M) ℕ
average total zero = fault
average total (suc count) = pure (total / suc count)

module _ {M : Type 0} (a : Allocator M) (ticks : ℕ → ℕ) (buffer : List ℕ) where
  unfoldable pub cold_loop : ℕ → ℕ → List (Option ℕ) → ℕ → Cmd (Bench M) (List (Option ℕ) × ℕ)
  unfolding evict_cache rdtsc elapsed in_memory order_of
  cold_loop zero i ptrs total = pure (ptrs, total)
  cold_loop (suc rounds) i ptrs total = elim (get_elem? ptrs i) [
    | none ↦ fault
    | some _ ↦ do
      _ ← evict_cache buffer
      start ← rdtsc ticks
      p ← in_memory (a.allocate (order_of i))
      cycles ← elapsed ticks start
      cold_loop rounds (i + 1) (set ptrs i p) ((total + cycles) % uint64)
  ]

  unfoldable pub bench_allocate_cold : List (Option ℕ) → Cmd (Bench M) (List (Option ℕ) × ℕ)
  unfolding cold_loop average
  bench_allocate_cold ptrs = do
    let count = min (length ptrs) k_cold_samples
    (ptrs', total) ← cold_loop count 0 ptrs 0
    mean ← average total count
    pure (ptrs', mean)

  -- The part of `run_benchmark` for one way to allocate: `renew` makes a new pool, and does nothing for
  -- the heap.
  unfoldable pub run_workloads :
      Cmd (Bench M) (Unit {0}) → (ℕ → Bool) → (ℕ → ℕ → ℕ) → List ℕ → ℕ → Cmd (Bench M) Timings
  unfolding bench_allocate bench_deallocate bench_dealloc_random bench_churn bench_allocate_cold
      cleanup
  run_workloads renew coin pick random_order n = do
    _ ← renew
    (ptrs, alloc) ← bench_allocate a ticks (replicate n none) n
    dealloc ← bench_deallocate a ticks ptrs n
    (ptrs', again) ← bench_allocate a ticks ptrs n
    dealloc_rand ← bench_dealloc_random a ticks ptrs' random_order
    _ ← renew
    churn ← bench_churn a ticks coin pick n
    _ ← renew
    (cold_ptrs, alloc_cold) ← bench_allocate_cold (replicate (min n k_cold_samples) none)
    _ ← cleanup a ticks cold_ptrs
    pure (record {
      alloc = alloc;
      dealloc = dealloc;
      dealloc_rand = dealloc_rand;
      churn = churn;
      alloc_cold = alloc_cold;
    })

-- `MemPool<Order> pool(n);`
unfoldable pub new_memory : {M : Type 0} → Option M → Cmd (Bench M) (Unit {0})
new_memory none b = none
new_memory (some m) b = some (tt, record b { memory = m })

-- A benchmark of one memory, run with the sink and the counter of another.
unfoldable pub beside : {M N A : Type 0} → M → Cmd (Bench M) A → Cmd (Bench N) A
beside m c b = elim (c (record { memory = m; sink = b.sink; readings = b.readings })) [
  | none ↦ none
  | some (x, b') ↦ some (x, record { memory = b.memory; sink = b'.sink; readings = b'.readings })
]
