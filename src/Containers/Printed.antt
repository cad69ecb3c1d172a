-- ===== src/Containers/Printed.antt =====
-- `main` of examples/container_benchmark.cpp as a whole: what it prints, and the sink that it prints.
use cpp_trading_exchange.Base.{
  Option, none, some, inl, inr, ◌⊎◌, ℕ, zero, suc, ◌+◌, ◌-◌, ◌*◌, ◌^◌, ◌≤◌, ◌<◌, ◌≡◌, ◌∙◌, refl,
  sym, subst, List, [], ◌∷◌, ◌++◌, map, arith, length, get_elem?, replicate,
}
use Prim.Native.Nat.{min}
use mathlib.Core.List.{Permᴰ}
use cpp_trading_exchange.Base.Cmd.{Cmd, pure, ◌>>=◌, Returns, returns, Returns-bind}
use cpp_trading_exchange.Base.Output.{Piece}
use cpp_trading_exchange.Pool.FreeList.{range, length-range}
use cpp_trading_exchange.Bench.{Bench}
use cpp_trading_exchange.Bench.Cold.{k_cold_samples, flush_loop, sign_extend}
use cpp_trading_exchange.Bench.Report.{read_sink}
use cpp_trading_exchange.Containers.{Table}
use cpp_trading_exchange.Containers.Sums.{total, take, total-Perm, length-Perm, Adds, Adds-trans}
use cpp_trading_exchange.Containers.Loops.{evicted}
use cpp_trading_exchange.Containers.Run.{Cycles}
use cpp_trading_exchange.Containers.Stages.{doubles, fed}
use cpp_trading_exchange.Containers.Whole.{run_benchmark_lem}
use cpp_trading_exchange.Containers.Report.{results, container_notes, print_benchmark, main}

get_elem?-zeros :
    (n i : ℕ)
    → (get_elem? {A = ℕ} (replicate n 0) i ≡ none) ⊎ (get_elem? {A = ℕ} (replicate n 0) i ≡ some 0)
get_elem?-zeros zero i = inl refl
get_elem?-zeros (suc n) zero = inr refl
get_elem?-zeros (suc n) (suc i) = get_elem?-zeros n i

flush_loop-zeros : (n fuel i : ℕ) → flush_loop fuel i 0 (replicate n 0) ≡ 0
unfolding flush_loop
flush_loop-zeros n zero i = refl
flush_loop-zeros n (suc fuel) i = elim (get_elem?-zeros n i) [
  | inl e ↦ rw (flush_loop, e) refl
  | inr e ↦ rw (flush_loop, e) (flush_loop-zeros n fuel (i + 128))
]

-- The passes over a buffer of zeros add nothing.
evicted-zeros : (n : ℕ) → evicted (replicate n 0) ≡ 0
unfolding sign_extend
evicted-zeros n = rw (flush_loop-zeros n (length {A = ℕ} (replicate n 0)) 0) refl

total-range : (n i : ℕ) → total (doubles (range i n)) + n ≡ n * (2 * i + n)
total-range zero i = omega arith
total-range (suc n) i = grind (arith, total-range n (i + 1))

total-add_zero : (e : ℕ) (ks : List ℕ) → e ≡ 0 → total (map (λ k. e + k * 2) ks) ≡ 2 * total ks
total-add_zero e [] z = omega arith
total-add_zero e (k ∷ ks) z = omega (arith, z, total-add_zero e ks z)

-- What the three containers add to the sink for `n` keys in the order `random_keys`.
abbrev pub tier : ℕ → List ℕ → ℕ
tier n random_keys = 3 * (2 * (n * (n - 1)) + 2 * total (take (min n k_cold_samples) random_keys))

square-suc : (n : ℕ) → n * (n - 1) + n ≡ n * n
square-suc zero = refl
square-suc (suc n) = grind arith

fed-zeros :
    (size n : ℕ) (random_keys : List ℕ)
    → 0 < n
    → Permᴰ (range 0 n) random_keys
    → 3 * fed (replicate size 0) (range 0 n) random_keys ≡ tier n random_keys
fed-zeros size n random_keys more shuffled =
    let long : length random_keys ≡ n = sym (length-Perm shuffled) ∙ length-range 0 n in
    let samples = take (min n k_cold_samples) random_keys in
    let cold = total-add_zero (evicted (replicate size 0)) samples (evicted-zeros size) in
    let keys = total-range n 0 in
    let lookups = total-Perm (λ k. k * 2) shuffled in
    rw long (omega (arith, cold, keys, lookups, square-suc n))

-- What is printed for three sizes, and what the sink is then.
abbrev pub Printed :
    {M : Type 0} → (ℕ → List ℕ) → ℕ → ℕ → ℕ → Bench M → List Piece → Bench M → Type 0
Printed shuffled n1 n2 n3 b output b' =
    (small : Cycles × Cycles × Cycles) × (medium : Cycles × Cycles × Cycles) × (large : Cycles
      × Cycles × Cycles)
    × (output
        ≡ results n1 small ++ results n2 medium ++ results n3 large ++ container_notes b'.sink)
    × Adds (tier n1 (shuffled n1) + tier n2 (shuffled n2) + tier n3 (shuffled n3)) b b'

some-Returns :
    {M A : Type 0} {P : A → M → Type 0} {r : Option (A × M)} {a : A} {m : M}
    → r ≡ some (a, m)
    → P a m
    → Returns P r
some-Returns e p = rw e (returns p)

module _ {M : Type 0} (ticks : ℕ → ℕ) (size : ℕ) (arrange : Table → Table)
    (arranged : (m : Table) → Permᴰ m (arrange m)) (shuffled : ℕ → List ℕ)
    (shuffles : (n : ℕ) → Permᴰ (range 0 n) (shuffled n)) where
  print_benchmark_lem :
      (n : ℕ) (b : Bench M)
      → 0 < n
      → n ≤ 2 ^ 30
      → Returns
          (λ output b'.
            Adds (tier n (shuffled n)) b b'
            × (t : Cycles × Cycles × Cycles) × (output ≡ results n t))
          (print_benchmark ticks (replicate size 0) arrange shuffled n b)
  unfolding print_benchmark
  print_benchmark_lem n b more fits =
      let (vec, m, um, _, _, b', run, _, _, _, grown) =
        run_benchmark_lem ticks (replicate size 0) arrange arranged n (shuffled n) b more fits
          (shuffles n) in
      Returns-bind
        (some-Returns {P = λ _. Adds (3 * fed (replicate size 0) (range 0 n) (shuffled n)) b} run
          grown)
        λ cycles b1 h. returns (
          subst (λ v. Adds v b b1) (fed-zeros size n (shuffled n) more (shuffles n)) h,
          cycles,
          refl,
        )

  abbrev print_all : ℕ → ℕ → ℕ → Cmd (Bench M) (List Piece)
  print_all n1 n2 n3 = do
    small ← print_benchmark ticks (replicate size 0) arrange shuffled n1
    medium ← print_benchmark ticks (replicate size 0) arrange shuffled n2
    large ← print_benchmark ticks (replicate size 0) arrange shuffled n3
    sink ← read_sink
    pure (small ++ medium ++ large ++ container_notes sink)

  print_all_lem :
      (n1 n2 n3 : ℕ) (b : Bench M)
      → 0 < n1
      → n1 ≤ 2 ^ 30
      → 0 < n2
      → n2 ≤ 2 ^ 30
      → 0 < n3
      → n3 ≤ 2 ^ 30
      → Returns (Printed shuffled n1 n2 n3 b) (print_all n1 n2 n3 b)
  print_all_lem n1 n2 n3 b p1 q1 p2 q2 p3 q3 =
      Returns-bind (print_benchmark_lem n1 b p1 q1) λ small b1 (h1, t1, e1).
        Returns-bind (print_benchmark_lem n2 b1 p2 q2) λ medium b2 (h2, t2, e2).
          Returns-bind (print_benchmark_lem n3 b2 p3 q3) λ large b3 (h3, t3, e3). returns (
            t1,
            t2,
            t3,
            rw (e1, e2, e3) refl,
            Adds-trans (tier n1 (shuffled n1) + tier n2 (shuffled n2)) (tier n3 (shuffled n3)) b b2
                b3 (Adds-trans (tier n1 (shuffled n1)) (tier n2 (shuffled n2)) b b1 b2 h1 h2) h3,
          )

  -- `main` of the containers, with a buffer of zeros, any counter, any shuffled keys and any order of
  -- iteration, is defined and ends. It prints the results of the sizes 100, 100000 and 10000000, from the
  -- smallest up, and the notes with the sink. The sink has grown, modulo 2^64, by what the three
  -- containers add for each size `n`: for each of them the doubles of all keys below `n`, twice, and
  -- those of the first 256 shuffled ones.
  pub container_main_lem :
      (b : Bench M)
      → Returns
          (Printed shuffled 100 100000 10000000 b)
          (main ticks (replicate size 0) arrange shuffled b)
  unfolding main
  container_main_lem b =
      print_all_lem 100 100000 10000000 b (omega arith) (omega arith) (omega arith) (omega arith)
        (omega arith) (omega arith)
