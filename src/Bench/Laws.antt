-- ===== src/Bench/Laws.antt =====
-- What the workloads ask of a pool of `n` slots, and of every way to allocate that is one.
use cpp_trading_exchange.Base.{
  ℕ, ◌+◌, ◌<◌, ◌≤◌, ◌≡◌, ◌⊎◌, false, Option, none, some, List, [], ◌∷◌, ◌++◌, ◌==◌, length, has,
}
use cpp_trading_exchange.Base.Cmd.{Cmd, Returns, returns}
use cpp_trading_exchange.Bench.{Order, Allocator, Bench, in_memory}
use cpp_trading_exchange.Bench.Spread.{one_if, copies}

-- `Owns m free`: the memory is in order and its free slots are `free`, the next to be served first.
pub record PoolLaws {M : Type 0} (a : Allocator M) (n : ℕ) : Type 1 where
  pub Owns : M → List ℕ → Type 0
  pub allocate-cons :
      (m : M) (t : Order) (i : ℕ) (free : List ℕ)
      → Owns m (i ∷ free)
      → Returns (λ p m'. (p ≡ some i) × Owns m' free) (a.allocate t m)
  pub allocate-nil :
      (m : M) (t : Order) → Owns m [] → Returns (λ p m'. (p ≡ none) × Owns m' []) (a.allocate t m)
  pub load-live :
      (m : M) (i : ℕ) (free : List ℕ)
      → Owns m free
      → i < n
      → has i free ≡ false
      → Returns (λ o m'. m' ≡ m) (a.load i m)
  pub deallocate-live :
      (m : M) (i : ℕ) (free : List ℕ)
      → Owns m free
      → i < n
      → has i free ≡ false
      → Returns (λ _ m'. Owns m' (i ∷ free)) (a.deallocate i m)

-- `ps` without one occurrence of `p` is `qs`, up to their order.
pub record Without (p : ℕ) (ps qs : List ℕ) : Type 0 where
  pub once : (x : ℕ) → copies x qs + one_if (x == p) ≡ copies x ps
  pub fewer : length qs + 1 ≡ length ps

-- What the workloads need to know of a way to allocate. `Live m ps`: the pointers of the workload that
-- are live in the memory are `ps`, in any order. It may be out of memory once `n` of them are live.
pub record LiveLaws {M : Type 0} (a : Allocator M) (n : ℕ) : Type 1 where
  pub Live : M → List ℕ → Type 0
  pub once-Live : (m : M) (ps : List ℕ) (x : ℕ) → Live m ps → copies x ps ≤ 1
  pub reorder :
      (m : M) (ps qs : List ℕ)
      → Live m ps
      → ((x : ℕ) → copies x qs ≡ copies x ps)
      → length qs ≡ length ps
      → Live m qs
  pub allocate-Live :
      (m : M) (t : Order) (ps : List ℕ)
      → Live m ps
      → Returns
          (λ p m'.
            ((j : ℕ) × (p ≡ some j) × Live m' (ps ++ j ∷ []))
            ⊎ ((p ≡ none) × (n ≤ length ps) × Live m' ps))
          (a.allocate t m)
  pub load-Live :
      (m : M) (p : ℕ) (ps : List ℕ)
      → Live m ps
      → 0 < copies p ps
      → Returns (λ o m'. m' ≡ m) (a.load p m)
  pub deallocate-Live :
      (m : M) (p : ℕ) (ps qs : List ℕ)
      → Live m ps
      → Without p ps qs
      → Returns (λ _ m'. Live m' qs) (a.deallocate p m)

-- A command on the memory does to the benchmark's state what it does to the memory.
pub in_memory_lem :
    {M A : Type 0} {P : A → M → Type 0} (c : Cmd M A) (b : Bench M)
    → Returns P (c b.memory)
    → Returns (λ x b'. P x b'.memory) (in_memory c b)
unfolding in_memory
in_memory_lem {M} {A} {P} c b h = in_bench h
  where
    in_bench :
        {run : Option (A × M)}
        → Returns P run
        → Returns
            (λ x (b' : Bench M). P x b'.memory)
            (elim run [ none ↦ none | some (x, m) ↦ some (x, record b { memory = m }) ])
    in_bench (returns p) = returns p
