-- ===== src/Containers/Loops.antt =====
-- What the loops of the workloads add to the sink.
use cpp_trading_exchange.Base.{
  ℕ, zero, suc, ◌+◌, ◌*◌, ◌%◌, ◌≤◌, ◌<◌, ◌≡◌, refl, true, Option, some, List, [], ◌∷◌, map, arith,
  ==-refl, length, has,
}
use Prim.Native.Nat.{min}
use cpp_trading_exchange.Base.Cmd.{Returns, returns, Returns-bind, Returns-mono}
use cpp_trading_exchange.Bench.{uint64, Bench, add_to_sink, rdtsc, elapsed}
use cpp_trading_exchange.Bench.Cold.{k_cold_samples, evict_cache, flush_loop, sign_extend, average}
use cpp_trading_exchange.Containers.{
  probe, lookup_loop, bench_lookup, cold_lookups, bench_lookup_cold, add_values, bench_iterate,
}
use cpp_trading_exchange.Containers.Sums.{total, take, Adds, Adds-trans, Adds-none}

-- What one pass over the buffer adds.
abbrev pub evicted : List ℕ → ℕ
evicted buffer = sign_extend (flush_loop (length buffer) 0 0 buffer)

module _ {M : Type 0} (ticks : ℕ → ℕ) where
  add_to_sink_lem : (v : ℕ) (b : Bench M) → Returns (λ _. Adds v b) (add_to_sink v b)
  unfolding add_to_sink
  add_to_sink_lem v b = returns (omega arith)

  average_lem :
      (sum count : ℕ) (b : Bench M) → 0 < count → Returns (λ _ b'. b' ≡ b) (average sum count b)
  unfolding average
  average_lem sum zero b h = elim h [ ]
  average_lem sum (suc count) b h = returns refl

  probe_lem :
      (lookup : ℕ → Option ℕ) (k v : ℕ) (b : Bench M)
      → lookup k ≡ some v
      → Returns (λ _. Adds v b) (probe ticks lookup k b)
  unfolding probe rdtsc elapsed add_to_sink
  probe_lem lookup k v b found = rw found (returns (omega arith))

  lookup_loop_lem :
      (lookup : ℕ → Option ℕ) (keys : List ℕ) (sum : ℕ) (b : Bench M)
      → ((k : ℕ) → has k keys ≡ true → lookup k ≡ some (k * 2))
      → Returns (λ _. Adds (total (map (λ k. k * 2) keys)) b) (lookup_loop ticks lookup keys sum b)
  unfolding lookup_loop
  lookup_loop_lem lookup [] sum b found = returns (Adds-none b)
  lookup_loop_lem lookup (k ∷ keys) sum b found =
      Returns-bind (probe_lem lookup k (k * 2) b (found k (ground (arith, ==-refl k))))
        λ cycles b1 h.
          Returns-mono
            (lookup_loop_lem lookup keys ((sum + cycles) % uint64) b1
              λ x hit. found x (ground (arith, hit)))
            λ res b2 g. Adds-trans (k * 2) _ b b1 b2 h g

  pub bench_lookup_lem :
      (lookup : ℕ → Option ℕ) (keys : List ℕ) (b : Bench M)
      → 0 < length keys
      → ((k : ℕ) → has k keys ≡ true → lookup k ≡ some (k * 2))
      → Returns (λ _. Adds (total (map (λ k. k * 2) keys)) b) (bench_lookup ticks lookup keys b)
  unfolding bench_lookup
  bench_lookup_lem lookup keys b more found =
      Returns-bind (lookup_loop_lem lookup keys 0 b found)
        λ sum b1 h. Returns-mono (average_lem sum (length keys) b1 more) λ mean b2 same. rw same h

  module _ (buffer : List ℕ) where
    cold_lookups_lem :
        (lookup : ℕ → Option ℕ) (rounds : ℕ) (keys : List ℕ) (sum : ℕ) (b : Bench M)
        → rounds ≤ length keys
        → ((k : ℕ) → has k keys ≡ true → lookup k ≡ some (k * 2))
        → Returns
            (λ _. Adds (total (map (λ k. evicted buffer + k * 2) (take rounds keys))) b)
            (cold_lookups ticks buffer lookup rounds keys sum b)
    unfolding cold_lookups evict_cache
    cold_lookups_lem lookup zero keys sum b enough found = returns (Adds-none b)
    cold_lookups_lem lookup (suc rounds) [] sum b enough found = absurd (omega (arith, enough))
    cold_lookups_lem lookup (suc rounds) (k ∷ keys) sum b enough found =
        Returns-bind (add_to_sink_lem (evicted buffer) b) λ _ b0 e.
          Returns-bind (probe_lem lookup k (k * 2) b0 (found k (ground (arith, ==-refl k))))
            λ cycles b1 h.
              Returns-mono
                (cold_lookups_lem lookup rounds keys ((sum + cycles) % uint64) b1
                  (omega (arith, enough)) λ x hit. found x (ground (arith, hit)))
                λ res b2 g.
                  Adds-trans (evicted buffer + k * 2) _ b b1 b2
                    (Adds-trans (evicted buffer) (k * 2) b b0 b1 e h) g

    pub bench_lookup_cold_lem :
        (lookup : ℕ → Option ℕ) (keys : List ℕ) (b : Bench M)
        → 0 < length keys
        → ((k : ℕ) → has k keys ≡ true → lookup k ≡ some (k * 2))
        → Returns
            (λ _.
              Adds
                (total (
                  map (λ k. evicted buffer + k * 2) (take (min (length keys) k_cold_samples) keys)))
                b)
            (bench_lookup_cold ticks buffer lookup keys b)
    unfolding bench_lookup_cold
    bench_lookup_cold_lem lookup keys b more found =
        Returns-bind
          (cold_lookups_lem lookup (min (length keys) k_cold_samples) keys 0 b (omega arith) found)
          λ sum b1 h.
            Returns-mono
              (average_lem sum (min (length keys) k_cold_samples) b1 (omega (arith, more)))
              λ mean b2 same. rw same h

  add_values_lem : (vs : List ℕ) (b : Bench M) → Returns (λ _. Adds (total vs) b) (add_values vs b)
  unfolding add_values
  add_values_lem [] b = returns (Adds-none b)
  add_values_lem (v ∷ vs) b =
      Returns-bind (add_to_sink_lem v b)
        λ _ b1 h. Returns-mono (add_values_lem vs b1) λ _ b2 g. Adds-trans v (total vs) b b1 b2 h g

  pub bench_iterate_lem :
      (vs : List ℕ) (b : Bench M) → Returns (λ _. Adds (total vs) b) (bench_iterate ticks vs b)
  unfolding bench_iterate rdtsc elapsed
  bench_iterate_lem vs b =
      Returns-bind (add_values_lem vs (record b { readings = b.readings + 1 })) λ _ b1 h. returns h
