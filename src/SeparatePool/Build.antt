-- ===== src/SeparatePool/Build.antt =====
-- The constructor of project/mem_pool_separate_free_structure.hpp builds the free list.
use cpp_trading_exchange.Base.{
  ℕ, zero, suc, ◌+◌, ◌<◌, ◌≡◌, ◌∙◌, subst, refl, some, List, arith, length, get_elem?-set,
  get_elem?-some, length-set, replicate, length-replicate,
}
use cpp_trading_exchange.Pool.FreeList.{range, Distinct-range, Chain-range}
use cpp_trading_exchange.SeparatePool.{
  Block, MemPoolSeparateFreeStructure, init_block, init_blocks, separate_pool,
}
use cpp_trading_exchange.SeparatePool.Laws.{next_of, IsSeparatePool}

module _ {T : Type 0} where
  -- The first `i` blocks are linked to their successors.
  record LinkedBlocks (s : List (Block T)) (n i : ℕ) : Type 0 where
    total : length s ≡ n
    links : (j : ℕ) → j < i → next_of s j ≡ some (j + 1)

  init_block-LinkedBlocks :
      (s : List (Block T)) (n i : ℕ)
      → i < n
      → LinkedBlocks s n i
      → LinkedBlocks (init_block i s) n (i + 1)
  unfolding init_block
  init_block-LinkedBlocks s n i h l =
      let low : i < length s = omega (arith, l.total) in
      let (b, at) = get_elem?-some s i low in
      let new : Block T = record b { next_free = i + 1 } in
      rw (at, init_block)
        (record {
          total = length-set s i new ∙ l.total;
          links = λ j k. ground (arith, get_elem?-set s i j new low, l.links j);
        })

  init_blocks-LinkedBlocks :
      (rounds i n : ℕ) (s : List (Block T))
      → i + rounds ≡ n
      → LinkedBlocks s n i
      → LinkedBlocks (init_blocks rounds i s) n n
  unfolding init_blocks
  init_blocks-LinkedBlocks zero i n s e l =
      let e' : i ≡ n = omega arith in subst (LinkedBlocks s n) e' l
  init_blocks-LinkedBlocks (suc rounds) i n s e l =
      init_blocks-LinkedBlocks rounds (i + 1) n (init_block i s) (omega arith)
        (init_block-LinkedBlocks s n i (omega arith) l)

  -- A pool of `n` blocks, at least one, starts with all of them free, to be served in the order of
  -- their indices.
  pub separate_pool_lem :
      (blank : T) (n : ℕ)
      → 0 < n
      → (p : MemPoolSeparateFreeStructure T) × (separate_pool blank n ≡ some p)
        × IsSeparatePool p (range 0 n)
        × (length p.store ≡ n)
  unfolding separate_pool
  separate_pool_lem blank zero h = elim h [ ]
  separate_pool_lem blank (suc n) h = (
    record { store = s; next_free_index = 0 },
    ground arith,
    record {
      chain =
          Chain-range _ 0 (suc n) _ (omega (arith, l.total))
            (λ j a b. l.links j (omega (arith, l.total)));
      next_first = refl;
      distinct = Distinct-range 0 (suc n);
    },
    l.total,
  )
    where
      empty_block : Block T
      empty_block = record { storage = blank; next_free = 0 }

      s : List (Block T)
      s = init_blocks (suc n) 0 (replicate (suc n) empty_block)

      l : LinkedBlocks s (suc n) (suc n)
      l =
          init_blocks-LinkedBlocks (suc n) 0 (suc n) (replicate (suc n) empty_block) (omega arith)
            (record {
              total = length-replicate (suc n) empty_block;
              links = λ j k. absurd (omega arith);
            })
