-- ===== src/Order/Access.antt =====
-- Reads and writes of whole orders in the pool, as commands, and what each shows at the level of
-- nodes, of the rest of an order, and of the free list.
use cpp_trading_exchange.Base.{
  ℕ, Option-cases, Bool-cases, inl, inr, ◌<◌, ◌≡◌, ◌∙◌, sym, refl, false, true, Option, none, some,
  List, [], ◌∷◌, arith, ◌==◌, if◌then◌else◌, length, get_elem?, get_elem?-lt, get_elem?-set, set,
  length-set, has,
}
use cpp_trading_exchange.Base.Cmd.{Cmd}
use cpp_trading_exchange.Queue.Seg.{OnlyNodes}
use cpp_trading_exchange.Pool.{Element, object_at, allocate, deallocate}
use cpp_trading_exchange.Pool.FreeList.{Chain-frame, IsPool}
use cpp_trading_exchange.Pool.Laws.{
  allocate_lem, deallocate_lem, live-element, link-set_other, free_other,
}
use cpp_trading_exchange.Order.{Order}
use cpp_trading_exchange.Order.Memory.{
  Memory, order_overlay, order_memory, strip, view, view_same, get_node, write_object,
  object_at-write,
}

-- `*ptr`, undefined where no order lives.
unfoldable pub load_order : ℕ → Cmd Memory Order
load_order i m = elim (object_at m i) [ none ↦ none | some o ↦ some (o, m) ]

unfoldable pub store_order : ℕ → Order → Cmd Memory (Unit {0})
store_order i o m = elim (object_at m i) [
  | none ↦ none
  | some _ ↦ some (tt, write_object (λ _. o) i m)
]

-- `order_pool_.allocate(...)`, null where the pool is exhausted.
unfoldable pub new_order : Order → Cmd Memory (Option ℕ)
new_order o m = some (allocate order_overlay o m)

-- `order_pool_.deallocate(order)`
unfoldable pub delete_order : ℕ → Cmd Memory (Unit {0})
delete_order i m = elim (deallocate order_overlay i m) [ none ↦ none | some m' ↦ some (tt, m') ]

-- Nothing but what is at the slots `xs` differs between the two memories.
pub record Frame (xs : List ℕ) (m m' : Memory) : Type 0 where
  pub nodes : (a : ℕ) → has a xs ≡ false → get_node m' a ≡ get_node m a
  pub views : (a : ℕ) → has a xs ≡ false → view m' a ≡ view m a

pub Frame-refl : (xs : List ℕ) (m : Memory) → Frame xs m m
Frame-refl xs m = record { nodes = λ a h. refl; views = λ a h. refl }

pub Frame-trans :
    (xs ys zs : List ℕ) {m m' m'' : Memory}
    → Frame xs m m'
    → Frame ys m' m''
    → ((a : ℕ) → has a zs ≡ false → (has a xs ≡ false) × (has a ys ≡ false))
    → Frame zs m m''
Frame-trans xs ys zs f g out = record {
  nodes = λ a h. let p = out a h in g.nodes a p.1 ∙ f.nodes a p.0;
  views = λ a h. let p = out a h in g.views a p.1 ∙ f.views a p.0;
}

pub Frame-mono :
    (xs ys : List ℕ) {m m' : Memory}
    → Frame xs m m'
    → ((a : ℕ) → has a ys ≡ false → has a xs ≡ false)
    → Frame ys m m'
Frame-mono xs ys f out = record {
  nodes = λ a h. f.nodes a (out a h);
  views = λ a h. f.views a (out a h);
}

pub OnlyNodes-Frame : (xs : List ℕ) (m m' : Memory) → OnlyNodes order_memory xs m m' → Frame xs m m'
OnlyNodes-Frame xs m m' f = record {
  nodes = f.outside;
  views = λ a h. view_same m m' f.same_rest a;
}

-- What stands at a slot after a write there.
pub record Written (i : ℕ) (o : Order) (m m' : Memory) : Type 0 where
  pub node : get_node m' i ≡ some o.list_node
  pub seen : view m' i ≡ some (strip o)
  pub frame : Frame (i ∷ []) m m'

Written-at :
    (i : ℕ) (o : Order) (m m' : Memory)
    → ((j : ℕ) → object_at m' j ≡ (if i == j then some o else object_at m j))
    → Written i o m m'
unfolding get_node view
Written-at i o m m' at = record {
  node = ground (arith, at i);
  seen = ground (arith, at i);
  frame = record { nodes = λ a h. ground (arith, at a); views = λ a h. ground (arith, at a) };
}

pub view-live :
    (m : Memory) (i : ℕ) {v : Order}
    → view m i ≡ some v
    → (o : Order) × (object_at m i ≡ some o) × (strip o ≡ v)
unfolding view
view-live m i h = elim (Option-cases (object_at m i)) [
  | inl e ↦ absurd (cc)
  | inr (o, e) ↦ (o, e, ground arith)
]

pub load_order_lem :
    (m : Memory) (i : ℕ) {v : Order}
    → view m i ≡ some v
    → (o : Order) × (load_order i m ≡ some (o, m))
      × (strip o ≡ v)
      × (get_node m i ≡ some o.list_node)
unfolding load_order get_node
load_order_lem m i h =
    let (o, e, s) = view-live m i h in (o, rw (e, load_order), s, rw (e, get_node))

flag-set :
    (s : List (Element Order)) (i j : ℕ) (new d : Element Order) (free : List ℕ)
    → i < length s
    → new.is_free_or_in_use ≡ has i free
    → (get_elem? s j ≡ some d → d.is_free_or_in_use ≡ has j free)
    → get_elem? (set s i new) j ≡ some d
    → d.is_free_or_in_use ≡ has j free
flag-set s i j new d free low at_i at_j g = elim (Bool-cases (i == j)) [
  | inl e ↦
      let same : i ≡ j = ground arith in
      let got : new ≡ d = ground (arith, get_elem?-set s i j new low) in rw (← same, ← got) at_i
  | inr e ↦ at_j (ground (arith, get_elem?-set s i j new low))
]

-- A write to a live object keeps the free list.
IsPool-write :
    (m : Memory) (i : ℕ) (f : Order → Order) (free : List ℕ) {o : Order}
    → IsPool order_overlay m free
    → object_at m i ≡ some o
    → IsPool order_overlay (write_object f i m) free
unfolding write_object
IsPool-write m i f free {o} is live =
    rw (at_i, write_object)
      (record {
        chain = rw (length-set m.store i new) (
            Chain-frame free (length m.store)
              (λ j h.
                link-set_other order_overlay m.store i j new low (free_other i j free not_free h))
              is.chain);
        next_first = rw (length-set m.store i new) is.next_first;
        distinct = is.distinct;
        flags = λ j d g. flags j d g;
      })
  where
    found :
        (e : Element Order) × (get_elem? m.store i ≡ some e)
        × (e.is_free_or_in_use ≡ false)
        × (e.object ≡ o)
    found = live-element order_overlay m i live

    at_i : get_elem? m.store i ≡ some found.0
    at_i = found.1

    low : i < length m.store
    low = get_elem?-lt m.store i at_i

    new : Element Order
    new = record (found.0) { object = f (found.0).object }

    not_free : has i free ≡ false
    not_free = sym (is.flags i found.0 at_i) ∙ found.2

    flags :
        (j : ℕ) (d : Element Order)
        → get_elem? (set m.store i new) j ≡ some d
        → d.is_free_or_in_use ≡ has j free
    flags j d g = flag-set m.store i j new d free low (is.flags i found.0 at_i) (is.flags j d) g

pub store_order_lem :
    (m : Memory) (i : ℕ) (o : Order) (free : List ℕ) {v : Order}
    → view m i ≡ some v
    → IsPool order_overlay m free
    → (m' : Memory) × (store_order i o m ≡ some (tt, m'))
      × Written i o m m'
      × IsPool order_overlay m' free
unfolding store_order
store_order_lem m i o free h is =
    let (x, e, s) = view-live m i h in
    (
      write_object (λ _. o) i m,
      rw (e, store_order),
      Written-at i o m _ (λ j. ground (arith, object_at-write (λ _. o) m i j)),
      IsPool-write m i (λ _. o) free is e,
    )

-- The slots of the free list hold no order.
pub free-view :
    (m : Memory) (i : ℕ) (free : List ℕ)
    → IsPool order_overlay m free
    → has i free ≡ true
    → view m i ≡ none
unfolding view object_at
free-view m i free is h = elim (Option-cases (get_elem? m.store i)) [
  | inl e ↦ rw (e, object_at)
  | inr (d, e) ↦ rw (e, object_at, is.flags i d e, h)
]

pub new_order_lem :
    (m : Memory) (o : Order) (i : ℕ) (free : List ℕ)
    → IsPool order_overlay m (i ∷ free)
    → (m' : Memory) × (new_order o m ≡ some (some i, m'))
      × Written i o m m'
      × IsPool order_overlay m' free
      × (view m i ≡ none)
unfolding new_order
new_order_lem m o i free is =
    let r = allocate order_overlay o m in
    let (got, pool, at, _) = allocate_lem order_overlay m o i free is in
    (r.1, ground arith, Written-at i o m r.1 at, pool, free-view m i (i ∷ free) is (ground arith))

-- What stands at a slot after a deallocation there.
pub record Deleted (i : ℕ) (m m' : Memory) : Type 0 where
  pub gone : view m' i ≡ none
  pub frame : Frame (i ∷ []) m m'

Deleted-at :
    (i : ℕ) (m m' : Memory)
    → ((j : ℕ) → object_at m' j ≡ (if i == j then none else object_at m j))
    → Deleted i m m'
unfolding get_node view
Deleted-at i m m' at = record {
  gone = ground (arith, at i);
  frame = record { nodes = λ a h. ground (arith, at a); views = λ a h. ground (arith, at a) };
}

pub delete_order_lem :
    (m : Memory) (i : ℕ) (free : List ℕ) {v : Order}
    → view m i ≡ some v
    → IsPool order_overlay m free
    → (m' : Memory) × (delete_order i m ≡ some (tt, m'))
      × Deleted i m m'
      × IsPool order_overlay m' (i ∷ free)
unfolding delete_order
delete_order_lem m i free h is =
    let (x, e, s) = view-live m i h in
    let (m', d, law) = deallocate_lem order_overlay m i free is e in
    (m', rw (d, delete_order), Deleted-at i m m' law.1, law.0)
