-- ===== src/Containers.antt =====
-- examples/container_benchmark.cpp: the same insertions, lookups and scans on a vector, a map and an
-- unordered map. The keys are `int`s that are not negative. A vector is a list of entries, a map is the
-- ascending list of Book/Levels, an unordered map a list of pairs in the order of their insertion, with
-- the order of its iteration an argument.
pub mod Sums
pub mod Search
pub mod Maps
pub mod Loops
pub mod Stages
pub mod Agree
pub mod Whole
pub mod Run
pub mod Report
pub mod Printed
use cpp_trading_exchange.Base.{
  ℕ, zero, suc, ◌+◌, ◌-◌, ◌*◌, ◌/◌, ◌%◌, ◌^◌, Option, none, some, List, [], ◌∷◌, ◌++◌, map, ltb,
  leb, ◌==◌, if◌then◌else◌, length, get_elem?,
}
use Prim.Native.Nat.{min}
use cpp_trading_exchange.Base.Cmd.{Cmd, pure, fault, ◌>>=◌, ◌>>◌}
use cpp_trading_exchange.Book.Levels.{find, put, touch}
use cpp_trading_exchange.Bench.{uint64, Bench, add_to_sink, rdtsc, elapsed}
use cpp_trading_exchange.Bench.Cold.{k_cold_samples, evict_cache, average}

-- One past the greatest `int`.
abbrev pub int_end : ℕ
int_end = 2 ^ 31

pub record Entry : Type 0 where
  pub key : ℕ
  pub value : ℕ

-- `std::map<int, int>` and `std::unordered_map<int, int>`
abbrev pub Table : Type 0
Table = List (ℕ × ℕ)

-- `m[k] = v` of a map.
unfoldable pub map_assign : ℕ → ℕ → Table → Table
unfolding put touch
map_assign k v m = put k v (touch k 0 m)

-- `m[k] = v` of an unordered map.
unfoldable pub umap_assign : ℕ → ℕ → Table → Table
umap_assign k v [] = (k, v) ∷ []
umap_assign k v ((j, w) ∷ m) = if j == k then (k, v) ∷ m else (j, w) ∷ umap_assign k v m

-- The value at a key, and 0 for a key that is not there.
unfoldable pub value_of : Table → ℕ → Option ℕ
unfolding find
value_of m k = elim (find k m) [ none ↦ some 0 | some v ↦ some v ]

-- `std::lower_bound` on `len` entries from `first` on: the first whose key is not below `k`, by halving.
-- `none` is an access out of range.
unfoldable pub lower_bound_loop : ℕ → ℕ → ℕ → ℕ → List Entry → Option ℕ
lower_bound_loop zero first len k vec = some first
lower_bound_loop (suc fuel) first zero k vec = some first
lower_bound_loop (suc fuel) first (suc rest) k vec =
    let half = suc rest / 2 in
    let above = lower_bound_loop fuel (first + half + 1) (suc rest - half - 1) k vec in
    let below = lower_bound_loop fuel first half k vec in
    elim (get_elem? vec (first + half)) [
      | none ↦ none
      | some e ↦ if ltb e.key k then above else below
    ]

-- A round for each entry is enough.
unfoldable pub lower_bound : List Entry → ℕ → Option ℕ
unfolding lower_bound_loop
lower_bound vec k = lower_bound_loop (length vec) 0 (length vec) k vec

-- `(it != vec.end()) ? it->value : 0`
unfoldable pub vector_value : List Entry → ℕ → Option ℕ
unfolding lower_bound
vector_value vec k = elim (lower_bound vec k) [
  | none ↦ none
  | some i ↦ elim (get_elem? vec i) [ none ↦ some 0 | some e ↦ some e.value ]
]

-- `std::sort` by the keys.
unfoldable pub insert_entry : Entry → List Entry → List Entry
insert_entry e [] = e ∷ []
insert_entry e (x ∷ xs) = if leb e.key x.key then e ∷ x ∷ xs else x ∷ insert_entry e xs

unfoldable pub sort_by_key : List Entry → List Entry
unfolding insert_entry
sort_by_key [] = []
sort_by_key (e ∷ es) = insert_entry e (sort_by_key es)

module _ {M : Type 0} where
  -- `std::iota`, where counting past the greatest `int` is undefined.
  unfoldable pub iota : ℕ → ℕ → Cmd M (List ℕ)
  iota zero i = pure []
  iota (suc n) i =
      let rest = iota n (i + 1) in
      if ltb (i + 1) int_end then (do keys ← rest; pure (i ∷ keys)) else fault

  unfoldable pub make_keys : ℕ → Cmd M (List ℕ)
  unfolding iota
  make_keys n = iota n 0

  -- `k * 2`, undefined where it is no `int`.
  unfoldable pub twice : ℕ → Cmd M ℕ
  twice k = if ltb (k * 2) int_end then pure (k * 2) else fault

  unfoldable pub push_all : List ℕ → List Entry → Cmd (M) (List Entry)
  unfolding twice
  push_all [] vec = pure vec
  push_all (k ∷ keys) vec = do
    v ← twice k
    push_all keys (vec ++ record { key = k; value = v } ∷ [])

  -- The loop of an insertion, for either map.
  unfoldable pub assign_all : (ℕ → ℕ → Table → Table) → List ℕ → Table → Cmd (M) Table
  unfolding twice
  assign_all assign [] m = pure m
  assign_all assign (k ∷ keys) m = do v ← twice k; assign_all assign keys (assign k v m)

  unfoldable pub add_values : List ℕ → Cmd (Bench M) (Unit {0})
  unfolding add_to_sink
  add_values [] = pure tt
  add_values (v ∷ values) = add_to_sink v >> add_values values

module _ {M : Type 0} (ticks : ℕ → ℕ) where
  unfoldable pub bench_vector_insert : List Entry → List ℕ → Cmd (Bench M) (List Entry × ℕ)
  unfolding rdtsc elapsed push_all
  bench_vector_insert vec keys = do
    start ← rdtsc ticks
    vec' ← push_all keys vec
    cycles ← elapsed ticks start
    pure (vec', cycles)

  unfoldable pub bench_insert : (ℕ → ℕ → Table → Table) → Table → List ℕ → Cmd (Bench M) (Table × ℕ)
  unfolding rdtsc elapsed assign_all
  bench_insert assign m keys = do
    start ← rdtsc ticks
    m' ← assign_all assign keys m
    cycles ← elapsed ticks start
    pure (m', cycles)

  -- A timed lookup, whose value goes to the sink.
  unfoldable pub probe : (ℕ → Option ℕ) → ℕ → Cmd (Bench M) ℕ
  unfolding rdtsc elapsed add_to_sink
  probe lookup k = do
    start ← rdtsc ticks
    elim (lookup k) [ none ↦ fault | some v ↦ add_to_sink v >> elapsed ticks start ]

  unfoldable pub lookup_loop : (ℕ → Option ℕ) → List ℕ → ℕ → Cmd (Bench M) ℕ
  unfolding probe
  lookup_loop lookup [] total = pure total
  lookup_loop lookup (k ∷ keys) total = do
    cycles ← probe lookup k
    lookup_loop lookup keys ((total + cycles) % uint64)

  unfoldable pub bench_lookup : (ℕ → Option ℕ) → List ℕ → Cmd (Bench M) ℕ
  unfolding lookup_loop average
  bench_lookup lookup lookup_keys = do
    total ← lookup_loop lookup lookup_keys 0
    average total (length lookup_keys)

  -- The keys from the index `i` of the loop on; a read past the last is undefined.
  unfoldable pub cold_lookups : List ℕ → (ℕ → Option ℕ) → ℕ → List ℕ → ℕ → Cmd (Bench M) ℕ
  unfolding evict_cache probe
  cold_lookups buffer lookup zero keys total = pure total
  cold_lookups buffer lookup (suc rounds) [] total = fault
  cold_lookups buffer lookup (suc rounds) (k ∷ keys) total = do
    _ ← evict_cache buffer
    cycles ← probe lookup k
    cold_lookups buffer lookup rounds keys ((total + cycles) % uint64)

  unfoldable pub bench_lookup_cold : List ℕ → (ℕ → Option ℕ) → List ℕ → Cmd (Bench M) ℕ
  unfolding cold_lookups average
  bench_lookup_cold buffer lookup lookup_keys = do
    let count = min (length lookup_keys) k_cold_samples
    total ← cold_lookups buffer lookup count lookup_keys 0
    average total count

  unfoldable pub bench_iterate : List ℕ → Cmd (Bench M) ℕ
  unfolding rdtsc elapsed add_values
  bench_iterate values = do start ← rdtsc ticks; add_values values; elapsed ticks start
