-- ===== src/Pool/Build.antt =====
-- The constructor of project/mem_pool.hpp builds the free list.
use cpp_trading_exchange.Base.{
  ℕ, zero, suc, ◌+◌, ◌<◌, ◌≡◌, ◌∙◌, sym, subst, refl, true, some, List, arith, ◌==◌, if◌then◌else◌,
  length, get_elem?, get_elem?-lt, get_elem?-set, get_elem?-some, set, length-set, replicate,
  length-replicate,
}
use cpp_trading_exchange.Pool.{
  Overlay, Element, MemPool, blank_element, init_element, init_loop, mem_pool,
}
use cpp_trading_exchange.Pool.FreeList.{
  link, IsPool, range, Distinct-range, Chain-range, has-range_iff,
}

module _ {T : Type 0} (o : Overlay T) where
  -- The first `i` elements are free and linked to their successors.
  record Linked (s : List (Element T)) (n i : ℕ) : Type 0 where
    total : length s ≡ n
    links : (j : ℕ) → j < i → link o s j ≡ some (j + 1)
    flags : (j : ℕ) (e : Element T) → j < i → get_elem? s j ≡ some e → e.is_free_or_in_use ≡ true

  init_element-Linked :
      (s : List (Element T)) (n i : ℕ)
      → i < n
      → Linked s n i
      → Linked (init_element o i s) n (i + 1)
  unfolding init_element
  init_element-Linked s n i h l =
      rw (got.1, init_element)
        (record {
          total = length-set s i new ∙ l.total;
          links = λ j k. links j k;
          flags = λ j e k g. ground (arith, at j, l.flags j e);
        })
    where
      low : i < length s
      low = omega (arith, l.total)

      got : (e : Element T) × (get_elem? s i ≡ some e)
      got = get_elem?-some s i low

      new : Element T
      new = record { is_free_or_in_use = true; object = o.set_next_free (got.0).object (i + 1) }

      at : (j : ℕ) → get_elem? (set s i new) j ≡ (if i == j then some new else get_elem? s j)
      at j = get_elem?-set s i j new low

      links : (j : ℕ) → j < i + 1 → link o (set s i new) j ≡ some (j + 1)
      links j k = ground (arith, at j, l.links j, o.next_free-set (got.0).object (i + 1))

  init_loop-Linked :
      (rounds i n : ℕ) (s : List (Element T))
      → i + rounds ≡ n
      → Linked s n i
      → Linked (init_loop o rounds i s) n n
  unfolding init_loop
  init_loop-Linked zero i n s e l = let e' : i ≡ n = omega arith in subst (Linked s n) e' l
  init_loop-Linked (suc rounds) i n s e l =
      init_loop-Linked rounds (i + 1) n _ (omega arith) (init_element-Linked s n i (omega arith) l)

  -- A pool of `n` elements, at least one, starts with all of them free, to be served in the order of
  -- their indices.
  pub mem_pool_lem :
      (n : ℕ)
      → 0 < n
      → (p : MemPool T) × (mem_pool o n ≡ some p) × IsPool o p (range 0 n) × (length p.store ≡ n)
  unfolding mem_pool
  mem_pool_lem zero h = elim h [ ]
  mem_pool_lem (suc n) h = (
    p,
    ground arith,
    record {
      chain =
          Chain-range _ 0 (suc n) _ (omega (arith, l.total))
            (λ j a b. l.links j (omega (arith, l.total)));
      next_first = refl;
      distinct = Distinct-range 0 (suc n);
      flags = λ j e g.
          l.flags j e (low j g) g
          ∙ sym (has-range_iff j 0 (suc n) (omega arith) (omega (arith, low j g)));
    },
    l.total,
  )
    where
      s : List (Element T)
      s = init_loop o (suc n) 0 (replicate (suc n) (blank_element o))

      p : MemPool T
      p = record { store = s; next_free_index = 0 }

      l : Linked s (suc n) (suc n)
      l =
          init_loop-Linked (suc n) 0 (suc n) (replicate (suc n) (blank_element o)) (omega arith)
            (record {
              total = length-replicate (suc n) (blank_element o);
              links = λ j k. absurd (omega arith);
              flags = λ j e k g. absurd (omega arith);
            })

      low : (j : ℕ) {e : Element T} → get_elem? s j ≡ some e → j < suc n
      low j g = subst (λ k. j < k) l.total (get_elem?-lt s j g)
