-- ===== src/Order/Memory.antt =====
-- A pool of orders as the memory that the queues of the book run through, and the reads and writes
-- of whole orders. The first member of `Order` is `order_id`, eight bytes long, so it is where
-- `next_free_of` of project/mem_pool.hpp puts its index.
use cpp_trading_exchange.Base.{
  ℕ, Option-cases, inl, inr, ◌≡◌, ◌∙◌, sym, ap, refl, false, Bool, Option, none, some, List, map,
  arith, ◌==◌, if◌then◌else◌, length, map-set, set-same, get_elem?-map, length-map, get_elem?,
  get_elem?-lt, get_elem?-set, set, has,
}
use mathlib.Core.Option
use cpp_trading_exchange.Queue.{Node, null_node, NodeMemory}
use cpp_trading_exchange.Pool.{Overlay, Element, MemPool, object_at}
use cpp_trading_exchange.Pool.FreeList.{Chain-frame, link, IsPool}
use cpp_trading_exchange.Order.{Order, limit}

abbrev pub zeroed_order : Order
zeroed_order = record {
  order_id = 0;
  client_id = 0;
  symbol = "";
  size = 0;
  price = 0;
  is_buy_side = false;
  order_type = limit;
  list_node = null_node;
}

abbrev pub order_overlay : Overlay Order
order_overlay = record {
  zeroed = zeroed_order;
  next_free_of = λ o. o.order_id;
  set_next_free = λ o n. record o { order_id = n };
  next_free-set = λ o n. refl;
}

abbrev pub Memory : Type 0
Memory = MemPool Order

-- The order less its node.
abbrev pub strip : Order → Order
strip o = record o { list_node = null_node }

abbrev pub strip_element : Element Order → Element Order
strip_element e = record e { object = strip e.object }

-- A write to the object in an element.
unfoldable pub write_object : (Order → Order) → ℕ → Memory → Memory
write_object f i m = elim (get_elem? m.store i) [
  | none ↦ m
  | some e ↦ record m { store = set m.store i (record e { object = f e.object }) }
]

abbrev pub set_node : Memory → ℕ → Node → Memory
set_node m i n = write_object (λ o. record o { list_node = n }) i m

unfoldable pub get_node : Memory → ℕ → Option Node
get_node m i = Option.map (λ o. o.list_node) (object_at m i)

unfoldable pub forget_nodes : Memory → Memory
forget_nodes m = record m { store = map strip_element m.store }

pub object_at-write :
    (f : Order → Order) (m : Memory) (i j : ℕ)
    → object_at (write_object f i m) j
      ≡ (if i == j then Option.map f (object_at m j) else object_at m j)
unfolding object_at write_object
object_at-write f m i j = elim (Option-cases (get_elem? m.store i)) [
  | inl e ↦ rw (e, write_object) (ground arith)
  | inr (e, q) ↦
      rw (q, write_object)
        (ground (
          arith,
          get_elem?-set m.store i j (record e { object = f e.object }) (get_elem?-lt m.store i q),
        ))
]

pub get_node-set :
    (m : Memory) (i j : ℕ) (n : Node) {old : Node}
    → get_node m i ≡ some old
    → get_node (set_node m i n) j ≡ (if i == j then some n else get_node m j)
unfolding get_node
get_node-set m i j n e = ground (arith, object_at-write (λ o. record o { list_node = n }) m i j)

pub forget_nodes-set :
    (m : Memory) (i : ℕ) (n : Node) → forget_nodes (set_node m i n) ≡ forget_nodes m
unfolding forget_nodes write_object
forget_nodes-set m i n = elim (Option-cases (get_elem? m.store i)) [
  | inl e ↦ rw (e, write_object)
  | inr (e, q) ↦
      rw
        (
          q,
          write_object,
          map-set strip_element m.store i (record e { object = record e.object { list_node = n } }),
        )
        (rw (
          set-same (map strip_element m.store) i (strip_element e)
            (rw (get_elem?-map strip_element m.store i, q))))
]

-- The orders of a pool as the memory of the queues of the price levels.
abbrev pub order_memory : NodeMemory Memory
order_memory = record {
  Rest = Memory;
  get_node = get_node;
  put_node = set_node;
  rest = forget_nodes;
  get-put = get_node-set;
  rest-put = forget_nodes-set;
}

-- What an order shows besides its node.
unfoldable pub view : Memory → ℕ → Option Order
view m i = Option.map strip (object_at m i)

view-forget : (m : Memory) (i : ℕ) → view m i ≡ object_at (forget_nodes m) i
unfolding view forget_nodes object_at
view-forget m i = elim (Option-cases (get_elem? m.store i)) [
  | inl e ↦ rw (object_at, get_elem?-map strip_element m.store i, e)
  | inr (e, q) ↦ rw (object_at, get_elem?-map strip_element m.store i, q) (ground arith)
]

pub view_same : (m m' : Memory) → forget_nodes m' ≡ forget_nodes m → (i : ℕ) → view m' i ≡ view m i
view_same m m' e i = rw (view-forget m' i, view-forget m i, e)

link-forget :
    (m : Memory) (i : ℕ)
    → link order_overlay (forget_nodes m).store i ≡ link order_overlay m.store i
unfolding forget_nodes
link-forget m i = elim (Option-cases (get_elem? m.store i)) [
  | inl e ↦ rw (get_elem?-map strip_element m.store i, e)
  | inr (e, q) ↦ rw (get_elem?-map strip_element m.store i, q)
]

flag_at : Memory → ℕ → Option Bool
flag_at m i = Option.map (λ e. e.is_free_or_in_use) (get_elem? m.store i)

flag_at-forget : (m : Memory) (i : ℕ) → flag_at (forget_nodes m) i ≡ flag_at m i
unfolding forget_nodes flag_at
flag_at-forget m i = elim (Option-cases (get_elem? m.store i)) [
  | inl e ↦ rw (get_elem?-map strip_element m.store i, e)
  | inr (e, q) ↦ rw (get_elem?-map strip_element m.store i, q)
]

length-forget : (m : Memory) → length (forget_nodes m).store ≡ length m.store
unfolding forget_nodes
length-forget m = length-map strip_element m.store

next-forget : (m : Memory) → (forget_nodes m).next_free_index ≡ m.next_free_index
unfolding forget_nodes
next-forget m = refl

module _ (m m' : Memory) (e : forget_nodes m' ≡ forget_nodes m) where
  length_same : length m'.store ≡ length m.store
  length_same = sym (length-forget m') ∙ ap (λ (x : Memory). length x.store) e ∙ length-forget m

  flags_same :
      (free : List ℕ)
      → IsPool order_overlay m free
      → (i : ℕ) (d : Element Order) → get_elem? m'.store i ≡ some d
      → d.is_free_or_in_use ≡ has i free
  unfolding flag_at
  flags_same free is i d g = elim (Option-cases (get_elem? m.store i)) [
    | inl q ↦ absurd (cc (both, g, q))
    | inr (c, q) ↦ ground (arith, both, is.flags i c q)
  ]
    where
      both : flag_at m' i ≡ flag_at m i
      both = sym (flag_at-forget m' i) ∙ ap (λ (x : Memory). flag_at x i) e ∙ flag_at-forget m i

  -- What touches nodes alone keeps the free list.
  pub IsPool-same : (free : List ℕ) → IsPool order_overlay m free → IsPool order_overlay m' free
  IsPool-same free is = record {
    chain = rw length_same (
        Chain-frame free _
          (λ i h.
            sym (link-forget m' i)
            ∙ ap (λ (x : Memory). link order_overlay x.store i) e
            ∙ link-forget m i)
          is.chain);
    next_first = rw length_same (
        sym (next-forget m')
        ∙ ap (λ (x : Memory). x.next_free_index) e
        ∙ next-forget m
        ∙ is.next_first);
    distinct = is.distinct;
    flags = flags_same free is;
  }
