-- ===== src/Bench/Heap.antt =====
-- The C++ heap as the benchmarks use it: every allocation has an address of its own, a read or a
-- release of what is not live is undefined.
use cpp_trading_exchange.Base.{ℕ, Option, none, some, List, [], ◌∷◌, ◌++◌, length, get_elem?, set}
use cpp_trading_exchange.Base.Cmd.{Cmd}
use cpp_trading_exchange.Bench.{Order, Allocator}

abbrev pub Heap : Type 0
Heap = List (Option Order)

-- `new Order{…}`, and `malloc` with the assignment that follows it.
unfoldable pub make_object : Order → Cmd Heap (Option ℕ)
make_object t h = some (some (length h), h ++ some t ∷ [])

unfoldable pub object_of : Heap → ℕ → Option Order
object_of h p = elim (get_elem? h p) [ none ↦ none | some cell ↦ cell ]

unfoldable pub read_object : ℕ → Cmd Heap Order
unfolding object_of
read_object p h = elim (object_of h p) [ none ↦ none | some t ↦ some (t, h) ]

-- `delete p` and `free(p)`
unfoldable pub release_object : ℕ → Cmd Heap (Unit {0})
unfolding object_of
release_object p h = elim (object_of h p) [ none ↦ none | some _ ↦ some (tt, set h p none) ]

abbrev pub heap_allocator : Allocator Heap
heap_allocator = record { allocate = make_object; load = read_object; deallocate = release_object }
