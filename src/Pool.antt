-- ===== src/Pool.antt =====
-- project/mem_pool.hpp: a pool of elements whose free list runs through the storage of the free
-- elements. A pointer to an element's object is the element's index in `store_`.
pub mod FreeList
pub mod Build
pub mod Laws
use cpp_trading_exchange.Base.{
  ℕ, zero, suc, ◌+◌, ◌≡◌, Bool, true, false, Option, none, some, List, leb, ◌==◌, if◌then◌else◌,
  length, get_elem?, set, replicate,
}

-- The storage of an element, read as an object or as the index that `next_free_of` finds in its first
-- bytes. `zeroed` is storage of zero bytes. A write of the index may clobber any part of the object.
pub record Overlay (T : Type 0) : Type 0 where
  pub zeroed : T
  pub next_free_of : T → ℕ
  pub set_next_free : T → ℕ → T
  pub next_free-set : (t : T) (n : ℕ) → next_free_of (set_next_free t n) ≡ n

pub record Element (T : Type 0) : Type 0 where
  pub is_free_or_in_use : Bool
  pub object : T

pub record MemPool (T : Type 0) : Type 0 where
  pub store : List (Element T)
  pub next_free_index : ℕ

module _ {T : Type 0} (o : Overlay T) where
  open o use {zeroed, next_free_of, set_next_free}

  abbrev pub blank_element : Element T
  blank_element = record { is_free_or_in_use = true; object = zeroed }

  -- The body of the constructor's loop.
  unfoldable pub init_element : ℕ → List (Element T) → List (Element T)
  init_element i s = elim (get_elem? s i) [
    | none ↦ s
    | some e ↦
        set s i (record { is_free_or_in_use = true; object = set_next_free e.object (i + 1) })
  ]

  -- `for (i; rounds more; ++i)`
  unfoldable pub init_loop : ℕ → ℕ → List (Element T) → List (Element T)
  unfolding init_element
  init_loop zero i s = s
  init_loop (suc rounds) i s = init_loop rounds (i + 1) (init_element i s)

  -- `none` is the failed assertion, which aborts.
  unfoldable pub mem_pool : ℕ → Option (MemPool T)
  unfolding init_loop
  mem_pool num_elems =
      if num_elems == 0
      then none
      else some (record {
        store = init_loop num_elems 0 (replicate num_elems blank_element);
        next_free_index = 0;
      })

  -- `allocate` constructs the object `t` and returns its place, `none` for null.
  unfoldable pub allocate : T → MemPool T → Option ℕ × MemPool T
  allocate t p =
      if leb (length p.store) p.next_free_index
      then (none, p)
      else elim (get_elem? p.store p.next_free_index) [
        | none ↦ (none, p)
        | some e ↦ (
          some p.next_free_index,
          record {
            store =
                set p.store p.next_free_index (record { is_free_or_in_use = false; object = t });
            next_free_index = next_free_of e.object;
          },
        )
      ]

  -- `none` is a pointer that is not into the pool: undefined behaviour.
  unfoldable pub deallocate : ℕ → MemPool T → Option (MemPool T)
  deallocate ptr p = elim (get_elem? p.store ptr) [
    | none ↦ none
    | some e ↦ some (record {
      store =
          set p.store ptr (record {
            is_free_or_in_use = true;
            object = set_next_free e.object p.next_free_index;
          });
      next_free_index = ptr;
    })
  ]

-- The object at a pointer, if the element is in use.
unfoldable pub object_at : {T : Type 0} → MemPool T → ℕ → Option T
object_at p i = elim (get_elem? p.store i) [
  | none ↦ none
  | some e ↦ if e.is_free_or_in_use then none else some e.object
]
