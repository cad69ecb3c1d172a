-- ===== src/SeparatePool.antt =====
-- project/mem_pool_separate_free_structure.hpp: a pool whose free list runs through an index beside
-- the storage of each element. A pointer to an object is the index of its block in `store_`.
pub mod Laws
pub mod Build
use cpp_trading_exchange.Base.{
  ℕ, zero, suc, ◌+◌, Option, none, some, List, leb, ◌==◌, if◌then◌else◌, length, get_elem?, set,
  replicate,
}

pub record Block (T : Type 0) : Type 0 where
  pub storage : T
  pub next_free : ℕ

pub record MemPoolSeparateFreeStructure (T : Type 0) : Type 0 where
  pub store : List (Block T)
  pub next_free_index : ℕ

-- The body of the constructor's loop.
unfoldable pub init_block : {T : Type 0} → ℕ → List (Block T) → List (Block T)
init_block i s = elim (get_elem? s i) [
  | none ↦ s
  | some block ↦ set s i (record block { next_free = i + 1 })
]

-- `for (i; rounds more; ++i)`
unfoldable pub init_blocks : {T : Type 0} → ℕ → ℕ → List (Block T) → List (Block T)
unfolding init_block
init_blocks zero i s = s
init_blocks (suc rounds) i s = init_blocks rounds (i + 1) (init_block i s)

-- The constructor, on storage that holds `blank`; `none` is the failed assertion, which aborts.
unfoldable pub separate_pool : {T : Type 0} → T → ℕ → Option (MemPoolSeparateFreeStructure T)
unfolding init_blocks
separate_pool blank num_elems =
    if num_elems == 0
    then none
    else some (record {
      store =
          init_blocks num_elems 0 (replicate num_elems (record { storage = blank; next_free = 0 }));
      next_free_index = 0;
    })

-- `allocate` constructs the object `t` and returns its place, `none` for null.
unfoldable pub allocate :
    {T : Type 0} → T → MemPoolSeparateFreeStructure T → Option ℕ × MemPoolSeparateFreeStructure T
allocate t p =
    if leb (length p.store) p.next_free_index
    then (none, p)
    else elim (get_elem? p.store p.next_free_index) [
      | none ↦ (none, p)
      | some block ↦ (
        some p.next_free_index,
        record {
          store = set p.store p.next_free_index (record block { storage = t });
          next_free_index = block.next_free;
        },
      )
    ]

-- `none` is a pointer that is not into the pool: undefined behaviour.
unfoldable pub deallocate :
    {T : Type 0} → ℕ → MemPoolSeparateFreeStructure T → Option (MemPoolSeparateFreeStructure T)
deallocate elem p = elim (get_elem? p.store elem) [
  | none ↦ none
  | some block ↦ some (record {
    store = set p.store elem (record block { next_free = p.next_free_index });
    next_free_index = elem;
  })
]
