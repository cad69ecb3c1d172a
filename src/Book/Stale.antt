-- ===== src/Book/Stale.antt =====
-- `cancelOrder` of project/order_book.cpp on an order that the match has filled: it rests in no queue.
use cpp_trading_exchange.Base.{
  ℕ, ◌+◌, ◌-◌, ◌%◌, ◌≡◌, ◌∙◌, ap, refl, ==-refl, Bool, true, false, none, some, List, if◌then◌else◌,
}
use cpp_trading_exchange.Base.Cmd.{◌>>◌, Returns, returns, Returns-bind}
use cpp_trading_exchange.Queue.{
  Node, NodeMemory, IntrusiveQueue, null_node, size_t, empty, load_node, set_next, set_prev,
  unlink_prev, unlink_next, remove,
}
use cpp_trading_exchange.Pool.FreeList.{IsPool}
use cpp_trading_exchange.Order.{Order}
use cpp_trading_exchange.Order.Memory.{
  Memory, order_memory, order_overlay, get_node, view, view_same, IsPool-same,
}
use cpp_trading_exchange.Order.Access.{load_order, load_order_lem, delete_order, delete_order_lem}
use cpp_trading_exchange.Book.{
  OrderBook, PriceLevels, in_pool, levels_of, set_levels, remove_at, cancel_order,
}
use cpp_trading_exchange.Book.Levels.{find, erase, put}
use cpp_trading_exchange.Book.Sweep.{Row}
use cpp_trading_exchange.Book.Pending.{Pending, in_pool_lem}

-- A queue whose items are out of reach.
abbrev pub lost : IntrusiveQueue → IntrusiveQueue
lost q = record { head = none; tail = none; size = (q.size + size_t - 1) % size_t }

module _ {M : Type 0} (mem : NodeMemory M) where
  load_node-at :
      (m : M) (i : ℕ) (n : Node) → mem.get_node m i ≡ some n → load_node mem i m ≡ some (n, m)
  unfolding load_node
  load_node-at m i n at = rw (load_node, at) refl

  set_next-at :
      (m : M) (i : ℕ)
      → mem.get_node m i ≡ some null_node
      → set_next mem i none m ≡ some (tt, mem.put_node m i null_node)
  unfolding set_next
  set_next-at m i at = rw (set_next, at) refl

  set_prev-at :
      (m : M) (i : ℕ)
      → mem.get_node m i ≡ some null_node
      → set_prev mem i none m ≡ some (tt, mem.put_node m i null_node)
  unfolding set_prev
  set_prev-at m i at = rw (set_prev, at) refl

  -- Removing an item whose links are null.
  remove-loose :
      (m : M) (i : ℕ) (q : IntrusiveQueue)
      → mem.get_node m i ≡ some null_node
      → Returns (λ q' m'. (q' ≡ lost q) × (mem.rest m' ≡ mem.rest m)) (remove mem i q m)
  unfolding remove unlink_prev unlink_next
  remove-loose m i q at =
      let m1 = mem.put_node m i null_node in
      let at1 : mem.get_node m1 i ≡ some null_node =
        mem.get-put m i i null_node at ∙ rw (==-refl i) refl in
      rw
        (
          load_node-at m i null_node at,
          load_node-at m i null_node at,
          set_next-at m i at,
          set_prev-at m1 i at1,
        )
        (returns (refl, mem.rest-put m1 i null_node ∙ mem.rest-put m i null_node))

-- The map after the level of a price has lost its orders.
abbrev pub without_orders : ℕ → IntrusiveQueue → PriceLevels → PriceLevels
without_orders price q levels =
    if empty (lost q) then erase price levels else put price (lost q) levels

remove_at-stale :
    (m : Memory) (price i : ℕ) (q : IntrusiveQueue) (levels : PriceLevels) (o : Order)
    (free : List ℕ)
    → find price levels ≡ some q
    → get_node m i ≡ some null_node
    → view m i ≡ some o
    → IsPool order_overlay m free
    → Returns
        (λ ls m'.
          (ls ≡ without_orders price q levels)
          × ((m2 : Memory) × (delete_order i m' ≡ some (tt, m2))))
        (remove_at price i levels m)
unfolding remove_at empty
remove_at-stale m price i q levels o free found at seen is =
    rw (remove_at, found)
      (Returns-bind (remove-loose order_memory m i q at) λ q' m' (lost_all, same).
        let (m2, run, _, _) =
          delete_order_lem m' i free (view_same m m' same i ∙ seen)
            (IsPool-same m m' same free is) in
        returns (
          ap (λ z. if empty z then erase price levels else put price z levels) lost_all,
          (m2, run),
        ))

-- `cancelOrder` of an order in a well-formed book that is in the pool but at no level, with null links,
-- as one that the match has filled: where its side has a level of its price, it does not fault and ends,
-- but the orders of that level are lost. Its head and tail become null and its count drops by one, or,
-- if that leaves none, it is erased; the other levels of the side stay.
pub cancel_order-stale :
    (i : ℕ) (o : Order) (b : OrderBook) (bids asks : List Row) (free : List ℕ) (q : IntrusiveQueue)
    → Pending i o b bids asks free
    → find o.price (levels_of o.is_buy_side b) ≡ some q
    → Returns
        (λ _ b'. levels_of o.is_buy_side b' ≡ without_orders o.price q (levels_of o.is_buy_side b))
        (cancel_order (some i) b)
unfolding cancel_order in_pool
cancel_order-stale i o b bids asks free q is found =
    let (x, run, same, _) = load_order_lem b.order_pool i is.seen in
    let at_price : x.price ≡ o.price = ap (λ (y : Order). y.price) same in
    let of_side : x.is_buy_side ≡ o.is_buy_side = ap (λ (y : Order). y.is_buy_side) same in
    Returns-bind
      (in_pool_lem {P = λ y m. (y ≡ x) × (m ≡ b.order_pool)} (load_order i) b
        (rw run (returns (refl, refl))))
      λ y b1 (m1, (ey, em), eb).
        rw (eb, em, ey, at_price, of_side)
          (Returns-bind
            (in_pool_lem (remove_at o.price i (levels_of o.is_buy_side b)) b (
              remove_at-stale b.order_pool o.price i q (levels_of o.is_buy_side b) o free found
                is.node is.seen is.book.pool))
            λ ls' b2 (m2, (els, (m', gone)), eb2). rw eb2 (
              finish o.is_buy_side ls' m2 m' gone
                (without_orders o.price q (levels_of o.is_buy_side b)) els))
  where
    finish :
        (s : Bool) (ls' : PriceLevels) (m2 m' : Memory)
        → delete_order i m2 ≡ some (tt, m')
        → (left : PriceLevels) → ls' ≡ left
        → Returns
            (λ _ b'. levels_of s b' ≡ left)
            ((set_levels s ls' >> in_pool (delete_order i)) (record b { order_pool = m2 }))
    finish true ls' m2 m' gone left e = rw (set_levels, in_pool, gone) (returns e)
    finish false ls' m2 m' gone left e = rw (set_levels, in_pool, gone) (returns e)
