-- ===== src/SeparatePool/Laws.antt =====
-- The free list of the pool with a separate index, kept by every operation.
use cpp_trading_exchange.Base.{
  ℕ, ◌<◌, ◌≡◌, ◌∙◌, refl, inl, inr, Option-cases, Bool-cases, false, true, Option, none, some, List,
  [], ◌∷◌, arith, ◌==◌, if◌then◌else◌, length, get_elem?, get_elem?-lt, get_elem?-set,
  get_elem?-some, set, length-set, has, has_other, Distinct,
}
use mathlib.Core.Option
use cpp_trading_exchange.Pool.FreeList.{start, Chain, Chain-frame}
use cpp_trading_exchange.SeparatePool.{Block, MemPoolSeparateFreeStructure, allocate, deallocate}

apart :
    (i : ℕ) (free : List ℕ) → has i free ≡ false → (j : ℕ) → has j free ≡ true → (i == j) ≡ false
apart i free miss j hit = ground (arith, has_other j i free miss hit)

module _ {T : Type 0} where
  abbrev pub next_of : List (Block T) → ℕ → Option ℕ
  next_of s i = Option.map (λ b. b.next_free) (get_elem? s i)

  -- The free blocks of the pool are those of `free`, in the order in which they will be served.
  pub record IsSeparatePool (p : MemPoolSeparateFreeStructure T) (free : List ℕ) : Type 0 where
    pub chain : Chain (next_of p.store) free (length p.store)
    pub next_first : p.next_free_index ≡ start free (length p.store)
    pub distinct : Distinct free

  -- What the storage of a block holds.
  unfoldable pub stored : MemPoolSeparateFreeStructure T → ℕ → Option T
  stored p i = Option.map (λ b. b.storage) (get_elem? p.store i)

  next_some :
      (s : List (Block T)) (i n : ℕ)
      → next_of s i ≡ some n
      → (b : Block T) × (get_elem? s i ≡ some b) × (b.next_free ≡ n)
  next_some s i n h = elim (Option-cases (get_elem? s i)) [
    | inl e ↦ absurd (cc)
    | inr (b, e) ↦ (b, e, ground arith)
  ]

  next-set :
      (s : List (Block T)) (i j : ℕ) (b : Block T)
      → i < length s
      → (i == j) ≡ false
      → next_of (set s i b) j ≡ next_of s j
  next-set s i j b low e = ground (arith, get_elem?-set s i j b low)

  stored-set :
      (p : MemPoolSeparateFreeStructure T) (i j n : ℕ) (b : Block T)
      → i < length p.store
      → stored (record { store = set p.store i b; next_free_index = n }) j
        ≡ (if i == j then some b.storage else stored p j)
  unfolding stored
  stored-set p i j n b low = ground (arith, get_elem?-set p.store i j b low)

  -- What `allocate` returns, by the free list.
  abbrev pub Served :
      MemPoolSeparateFreeStructure T
      → T
      → List ℕ
      → Option ℕ × MemPoolSeparateFreeStructure T
      → Type 0
  Served p t [] r = r ≡ (none, p)
  Served p t (i ∷ free) (r, p') =
      (r ≡ some i)
      × IsSeparatePool p' free
      × ((j : ℕ) → stored p' j ≡ (if i == j then some t else stored p j))
      × (length p'.store ≡ length p.store)

  allocate_eq :
      (p : MemPoolSeparateFreeStructure T) (t : T) (i : ℕ) (b : Block T)
      → p.next_free_index ≡ i
      → get_elem? p.store i ≡ some b
      → allocate t p ≡ (
        some i,
        record { store = set p.store i (record b { storage = t }); next_free_index = b.next_free },
      )
  unfolding allocate
  allocate_eq p t i b n g = ground (arith, get_elem?-lt p.store i g)

  allocate_full :
      (p : MemPoolSeparateFreeStructure T) (t : T)
      → p.next_free_index ≡ length p.store
      → allocate t p ≡ (none, p)
  unfolding allocate
  allocate_full p t n = ground arith

  -- With a free block, `allocate` serves the first of the free list, constructs the object there,
  -- and changes no other object; an exhausted pool returns null and stays as it is.
  pub serve_lem :
      (p : MemPoolSeparateFreeStructure T) (t : T) (free : List ℕ)
      → IsSeparatePool p free
      → Served p t free (allocate t p)
  serve_lem p t [] is = allocate_full p t is.next_first
  serve_lem p t (i ∷ free) is =
      let (b, at_i, next) = next_some p.store i _ is.chain.0 in
      let low = get_elem?-lt p.store i at_i in
      let new : Block T = record b { storage = t } in
      rw (allocate_eq p t i b is.next_first at_i) (
        refl,
        record {
          chain = rw (length-set p.store i new) (
              Chain-frame free (length p.store)
                (λ j h. next-set p.store i j new low (apart i free is.distinct.0 j h)) is.chain.1);
          next_first = rw (length-set p.store i new) next;
          distinct = is.distinct.1;
        },
        (λ j. stored-set p i j _ new low),
        length-set p.store i new,
      )

  abbrev pub Returned :
      MemPoolSeparateFreeStructure T → ℕ → List ℕ → MemPoolSeparateFreeStructure T → Type 0
  Returned p i free p' =
      IsSeparatePool p' (i ∷ free)
      × ((j : ℕ) → stored p' j ≡ stored p j)
      × (length p'.store ≡ length p.store)

  deallocate_eq :
      (p : MemPoolSeparateFreeStructure T) (i : ℕ) (b : Block T)
      → get_elem? p.store i ≡ some b
      → deallocate i p
        ≡ some (record {
          store = set p.store i (record b { next_free = p.next_free_index });
          next_free_index = i;
        })
  unfolding deallocate
  deallocate_eq p i b g = ground arith

  at_hit :
      (p : MemPoolSeparateFreeStructure T) (i : ℕ) (b : Block T)
      → get_elem? p.store i ≡ some b
      → (j : ℕ) → (if i == j then some b.storage else stored p j) ≡ stored p j
  unfolding stored
  at_hit p i b g j = elim (Bool-cases (i == j)) [
    | inl e ↦ let same : i ≡ j = ground arith in rw (e, ← same, g)
    | inr e ↦ rw e
  ]

  -- A block that is in the pool and not free goes to the front of the free list; the storage of no
  -- block changes, its own included, since the index has a place of its own.
  pub give_back_lem :
      (p : MemPoolSeparateFreeStructure T) (i : ℕ) (free : List ℕ)
      → IsSeparatePool p free
      → i < length p.store
      → has i free ≡ false
      → (p' : MemPoolSeparateFreeStructure T) × (deallocate i p ≡ some p') × Returned p i free p'
  give_back_lem p i free is low miss =
      let (b, e) = get_elem?-some p.store i low in
      let new : Block T = record b { next_free = p.next_free_index } in
      (
        record { store = set p.store i new; next_free_index = i },
        deallocate_eq p i b e,
        (
          record {
            chain = rw (length-set p.store i new) (
              ground (arith, get_elem?-set p.store i i new low, is.next_first),
              Chain-frame free (length p.store)
                  (λ j h. next-set p.store i j new low (apart i free miss j h)) is.chain,
            );
            next_first = refl;
            distinct = (miss, is.distinct);
          },
          (λ j. stored-set p i j i new low ∙ at_hit p i b e j),
          length-set p.store i new,
        ),
      )
