-- ===== src/Pool/Laws.antt =====
-- What `allocate` and `deallocate` of project/mem_pool.hpp do to the free list and to the objects.
use cpp_trading_exchange.Base.{
  ℕ, ◌<◌, ◌≡◌, ◌∙◌, sym, ap, refl, false, true, Option, none, some, List, [], ◌∷◌, arith, ◌==◌,
  ==-refl, if◌then◌else◌, length, get_elem?, get_elem?-lt, get_elem?-set, set, length-set, has,
  has_other,
}
use mathlib.Core.Option
use cpp_trading_exchange.Pool.{Overlay, Element, MemPool, allocate, deallocate, object_at}
use cpp_trading_exchange.Pool.FreeList.{start, Chain-frame, link, IsPool}

pub free_other :
    (i j : ℕ) (free : List ℕ) → has i free ≡ false → has j free ≡ true → (i == j) ≡ false
free_other i j free miss hit = ground (arith, has_other j i free miss hit)

module _ {T : Type 0} (o : Overlay T) where
  open o use {next_free_of, set_next_free}

  link-some :
      (s : List (Element T)) (i n : ℕ)
      → link o s i ≡ some n
      → (e : Element T) × (get_elem? s i ≡ some e) × (next_free_of e.object ≡ n)
  link-some s i n h = go (get_elem? s i) refl h
    where
      go :
          (r : Option (Element T))
          → get_elem? s i ≡ r
          → Option.map (λ e. next_free_of e.object) r ≡ some n
          → (e : Element T) × (get_elem? s i ≡ some e) × (next_free_of e.object ≡ n)
      go none q h = cc
      go (some e) q h = (e, q, ground arith)

  object_at-set :
      (p : MemPool T) (i j n : ℕ) (e : Element T)
      → i < length p.store
      → object_at (record { store = set p.store i e; next_free_index = n }) j
        ≡ (if i == j then (if e.is_free_or_in_use then none else some e.object) else object_at p j)
  unfolding object_at
  object_at-set p i j n e h = ground (arith, get_elem?-set p.store i j e h)

  abbrev pub Allocated : MemPool T → T → ℕ → List ℕ → Option ℕ × MemPool T → Type 0
  Allocated p t i free (r, p') =
      (r ≡ some i)
      × IsPool o p' free
      × ((j : ℕ) → object_at p' j ≡ (if i == j then some t else object_at p j))
      × (length p'.store ≡ length p.store)

  -- The pool after an allocation from element `i`.
  abbrev taken : MemPool T → T → ℕ → ℕ → MemPool T
  taken p t i next = record {
    store = set p.store i (record { is_free_or_in_use = false; object = t });
    next_free_index = next;
  }

  allocate_eq :
      (p : MemPool T) (t : T) (i : ℕ) (e : Element T)
      → p.next_free_index ≡ i
      → get_elem? p.store i ≡ some e
      → allocate o t p ≡ (some i, taken p t i (next_free_of e.object))
  unfolding allocate
  allocate_eq p t i e n g = ground (arith, get_elem?-lt p.store i g)

  pub link-set_other :
      (s : List (Element T)) (i j : ℕ) (e : Element T)
      → i < length s
      → (i == j) ≡ false
      → link o (set s i e) j ≡ link o s j
  link-set_other s i j e h miss = rw (get_elem?-set s i j e h, miss)

  -- With a free element, `allocate` serves the first of the free list, constructs the object there,
  -- and changes no other object.
  pub allocate_lem :
      (p : MemPool T) (t : T) (i : ℕ) (free : List ℕ)
      → IsPool o p (i ∷ free)
      → Allocated p t i free (allocate o t p)
  allocate_lem p t i free is = rw (allocate_eq p t i e is.next_first at_i) (
    refl,
    record {
      chain = rw (length-set p.store i new) (
          Chain-frame free (length p.store) (λ j h. link-set_other p.store i j new low (apart j h))
            is.chain.1);
      next_first = rw (length-set p.store i new) found.2;
      distinct = is.distinct.1;
      flags = λ j d g. flags j d g;
    },
    (λ j. object_at-set p i j _ new low),
    length-set p.store i new,
  )
    where
      found :
          (e : Element T) × (get_elem? p.store i ≡ some e)
          × (next_free_of e.object ≡ start free (length p.store))
      found = link-some p.store i _ is.chain.0

      e : Element T
      e = found.0

      at_i : get_elem? p.store i ≡ some e
      at_i = found.1

      low : i < length p.store
      low = get_elem?-lt p.store i at_i

      new : Element T
      new = record { is_free_or_in_use = false; object = t }

      apart : (j : ℕ) → has j free ≡ true → (i == j) ≡ false
      apart j h = free_other i j free is.distinct.0 h

      flags :
          (j : ℕ) (d : Element T)
          → get_elem? (set p.store i new) j ≡ some d
          → d.is_free_or_in_use ≡ has j free
      flags j d g = ground (arith, get_elem?-set p.store i j new low, is.flags j d, is.distinct.0)

  -- An exhausted pool returns null and stays as it is.
  pub allocate-nil : (p : MemPool T) (t : T) → IsPool o p [] → allocate o t p ≡ (none, p)
  unfolding allocate
  allocate-nil p t is = ground (arith, is.next_first)

  abbrev pub Deallocated : MemPool T → ℕ → List ℕ → MemPool T → Type 0
  Deallocated p i free p' =
      IsPool o p' (i ∷ free)
      × ((j : ℕ) → object_at p' j ≡ (if i == j then none else object_at p j))
      × (length p'.store ≡ length p.store)

  abbrev freed : MemPool T → ℕ → Element T → MemPool T
  freed p i e = record {
    store =
        set p.store i
          (record { is_free_or_in_use = true; object = set_next_free e.object p.next_free_index });
    next_free_index = i;
  }

  pub live-element :
      (p : MemPool T) (i : ℕ) {t : T}
      → object_at p i ≡ some t
      → (e : Element T) × (get_elem? p.store i ≡ some e)
        × (e.is_free_or_in_use ≡ false)
        × (e.object ≡ t)
  unfolding object_at
  live-element p i {t} h = go (get_elem? p.store i) refl h
    where
      go :
          (r : Option (Element T))
          → get_elem? p.store i ≡ r
          → (elim r [ none ↦ none | some e ↦ if e.is_free_or_in_use then none else some e.object ])
            ≡ some t
          → (e : Element T) × (get_elem? p.store i ≡ some e)
            × (e.is_free_or_in_use ≡ false)
            × (e.object ≡ t)
      go none q h = cc
      go (some e) q h = (e, q, ground arith, ground arith)

  -- The object at a live pointer goes back to the front of the free list; no other object changes.
  pub deallocate_lem :
      (p : MemPool T) (i : ℕ) (free : List ℕ) {t : T}
      → IsPool o p free
      → object_at p i ≡ some t
      → (p' : MemPool T) × (deallocate o i p ≡ some p') × Deallocated p i free p'
  unfolding deallocate
  deallocate_lem p i free {t} is live = (
    freed p i e,
    rw (at_i, deallocate),
    (
      record {
        chain = rw (length-set p.store i new) (
          at_front,
          Chain-frame free (length p.store)
              (λ j h. link-set_other p.store i j new low (free_other i j free not_free h)) is.chain,
        );
        next_first = refl;
        distinct = (not_free, is.distinct);
        flags = λ j d g. flags j d g;
      },
      (λ j. object_at-set p i j _ new low),
      length-set p.store i new,
    ),
  )
    where
      found :
          (e : Element T) × (get_elem? p.store i ≡ some e)
          × (e.is_free_or_in_use ≡ false)
          × (e.object ≡ t)
      found = live-element p i live

      e : Element T
      e = found.0

      at_i : get_elem? p.store i ≡ some e
      at_i = found.1

      low : i < length p.store
      low = get_elem?-lt p.store i at_i

      new : Element T
      new = record { is_free_or_in_use = true; object = set_next_free e.object p.next_free_index }

      not_free : has i free ≡ false
      not_free = sym (is.flags i e at_i) ∙ found.2

      at_front : link o (set p.store i new) i ≡ some (start free (length p.store))
      at_front =
          rw
            (
              get_elem?-set p.store i i new low,
              ==-refl i,
              o.next_free-set e.object p.next_free_index,
            )
            (ap some is.next_first)

      flags :
          (j : ℕ) (d : Element T)
          → get_elem? (set p.store i new) j ≡ some d
          → d.is_free_or_in_use ≡ has j (i ∷ free)
      flags j d g = ground (arith, get_elem?-set p.store i j new low, is.flags j d)
