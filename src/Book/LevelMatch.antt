-- ===== src/Book/LevelMatch.antt =====
-- `matchAtLevel` of project/order_book.cpp does what the rule on lists says.
use cpp_trading_exchange.Base.{
  ℕ, zero, suc, ◌+◌, ◌-◌, ◌%◌, ◌<◌, ◌≡◌, ◌∙◌, sym, ap, refl, inl, inr, true, false, Bool-cases,
  ◌&&◌, not, some, List, [], ◌∷◌, arith, ltb, ◌==◌, if◌then◌else◌, length, has, has_other,
}
use cpp_trading_exchange.Base.Cmd.{pure, ◌>>=◌, ◌>>◌, Returns, returns, Returns-bind, Returns-mono}
use cpp_trading_exchange.Queue.{IntrusiveQueue, empty}
use cpp_trading_exchange.Queue.Seg.{IsQueue}
use cpp_trading_exchange.Pool.FreeList.{IsPool}
use cpp_trading_exchange.Order.{Order, decrease_size}
use cpp_trading_exchange.Order.Memory.{Memory, get_node, strip, order_overlay}
use cpp_trading_exchange.Order.Access.{
  load_order_lem, store_order, store_order_lem, Frame-refl, Frame-trans, Frame-mono, Written,
}
use cpp_trading_exchange.Book.{uint32, close_order, match_at_level_loop, match_at_level}
use cpp_trading_exchange.Book.Rows.{Resting, slots, match_row}
use cpp_trading_exchange.Book.Level.{IsLevel, IsQueue-frame, Live-Frame}
use cpp_trading_exchange.Book.LevelRound.{
  length-slots, close_order_lem, LevelMatched, decrease_size-part, decrease_size-full,
  match_row-part, match_row-full, match_row-stop, round, idle, empty-nil, empty-cons, peek-cons,
}

-- A write to one order that keeps its node keeps every queue.
Written-IsQueue :
    (m m' : Memory) (i : ℕ) (o : Order) (q : IntrusiveQueue) (xs : List ℕ)
    → Written i o m m'
    → get_node m i ≡ some o.list_node
    → IsQueue (get_node m) q xs
    → IsQueue (get_node m') q xs
Written-IsQueue m m' i o q xs w e is = IsQueue-frame xs (λ a h. same a) is
  where
    same : (a : ℕ) → get_node m' a ≡ get_node m a
    same a = elim (Bool-cases (a == i)) [
      | inl hit ↦ let k : a ≡ i = ground arith in rw k (w.node ∙ sym e)
      | inr miss ↦ w.frame.nodes a (rw miss)
    ]

module _ (m : Memory) (q : IntrusiveQueue) (i : ℕ) (o x : Order) (xs : List Resting) (free : List ℕ)
    (size total : ℕ) (is : IsLevel m q ((i, o) ∷ xs)) (pool : IsPool order_overlay m free)
    (seen : strip x ≡ o) (node : get_node m i ≡ some x.list_node) where
  -- The order has more than is wanted: it stays, with what is left, and the loop ends.
  partial :
      (fuel : ℕ)
      → 0 < fuel
      → ltb total size ≡ true
      → ltb (size - total) o.size ≡ true
      → size < uint32
      → Returns (LevelMatched m free (i ∷ slots xs) (match_row size ((i, o) ∷ xs) total)) (
          (do
            let r = decrease_size x (size - total)
            store_order i r.0
            level' ← if (r.0).size == 0 then close_order i q else pure q
            match_at_level_loop fuel size level' ((total + r.1) % uint32))
            m)
  partial zero more go part small = elim more [ ]
  partial (suc fuel) more go part small =
      let o' = record x { size = x.size - (size - total) } in
      let sizes : x.size ≡ o.size = ap (λ (y : Order). y.size) seen in
      let (m1, e, w, pool1) = store_order_lem m i o' free is.live.0 pool in
      let left : (x.size - (size - total) == 0) ≡ false = ground arith in
      let total' : (total + (size - total)) % uint32 ≡ size = ground arith in
      let full : (not (empty q) && ltb size size) ≡ false = ground arith in
      rw
        (
          match_row-part size total i o xs go part,
          decrease_size-part x (size - total) (rw sizes part),
          e,
          left,
          total',
        )
        (rw (idle fuel size size q m1 full) (
          returns (
            refl,
            record {
              queue = Written-IsQueue m m1 i o' q (i ∷ slots xs) w node is.queue;
              live = (
                w.seen
                    ∙ ap (λ (y : Order). some (record y { size = y.size - (size - total) })) seen,
                Live-Frame m m1 xs (λ a h. w.frame.views a (away a h)) is.live.1,
              );
            },
            pool1,
            Frame-mono (i ∷ []) (i ∷ slots xs) w.frame λ a h. ground arith,
          )))
    where
      away : (a : ℕ) → has a (slots xs) ≡ true → has a (i ∷ []) ≡ false
      away a h = has_other a i (slots xs) is.queue.distinct.0 h

  -- The order is used up: it leaves the level and the pool, and the loop goes on with the others.
  used_up :
      (fuel : ℕ)
      → ltb total size ≡ true
      → ltb (size - total) o.size ≡ false
      → size < uint32
      → ((q' : IntrusiveQueue) (m' : Memory)
          → IsLevel m' q' xs
          → IsPool order_overlay m' (i ∷ free)
          → Returns
              (LevelMatched m' (i ∷ free) (slots xs) (match_row size xs (total + o.size)))
              (match_at_level_loop fuel size q' (total + o.size) m'))
      → Returns (LevelMatched m free (i ∷ slots xs) (match_row size ((i, o) ∷ xs) total)) (
          (do
            let r = decrease_size x (size - total)
            store_order i r.0
            level' ← if (r.0).size == 0 then close_order i q else pure q
            match_at_level_loop fuel size level' ((total + r.1) % uint32))
            m)
  used_up fuel go part small next =
      let o' = record x { size = 0 } in
      let sizes : x.size ≡ o.size = ap (λ (y : Order). y.size) seen in
      let (m1, e, w, pool1) = store_order_lem m i o' free is.live.0 pool in
      let total' : (total + x.size) % uint32 ≡ total + o.size = ground arith in
      rw
        (
          match_row-full size total i o xs go part,
          decrease_size-full x (size - total) (rw sizes part),
          e,
          total',
        )
        (Returns-bind
          (close_order_lem m1 q i xs free
            (Written-IsQueue m m1 i o' q (i ∷ slots xs) w node is.queue) w.seen
            (Live-Frame m m1 xs (λ a h. w.frame.views a (away a h)) is.live.1) pool1)
          λ q2 m2 (is2, pool2, frame2, _).
            Returns-mono (next q2 m2 is2 pool2) λ r m3 (t, is3, pool3, frame3). (
              t,
              is3,
              pool3,
              Frame-trans (i ∷ slots xs) (slots xs) (i ∷ slots xs)
                  (Frame-trans (i ∷ []) (i ∷ slots xs) (i ∷ slots xs) w.frame frame2
                    (λ a h. ground arith))
                  frame3 λ a h. ground arith,
            ))
    where
      away : (a : ℕ) → has a (slots xs) ≡ true → has a (i ∷ []) ≡ false
      away a h = has_other a i (slots xs) is.queue.distinct.0 h

match_at_level_loop_lem :
    (fuel size total : ℕ) (m : Memory) (q : IntrusiveQueue) (xs : List Resting) (free : List ℕ)
    → length xs < fuel
    → size < uint32
    → IsLevel m q xs
    → IsPool order_overlay m free
    → Returns
        (LevelMatched m free (slots xs) (match_row size xs total))
        (match_at_level_loop fuel size q total m)
unfolding match_row
match_at_level_loop_lem zero size total m q xs free enough small is pool = absurd (omega arith)
match_at_level_loop_lem (suc fuel) size total m q [] free enough small is pool =
    rw (idle fuel size total q m (rw (empty-nil q is)), match_row)
      (returns (refl, is, pool, Frame-refl [] m))
match_at_level_loop_lem (suc fuel) size total m q ((i, o) ∷ xs) free enough small is pool =
    elim (Bool-cases (ltb total size)) [
      | inr stop ↦
          let full : (not (empty q) && ltb total size) ≡ false = ground arith in
          rw (match_row-stop size total ((i, o) ∷ xs) stop, idle fuel size total q m full)
            (returns (refl, is, pool, Frame-refl (i ∷ slots xs) m))
      | inl go ↦
          let (x, load, seen, node) = load_order_lem m i is.live.0 in
          let run =
            round fuel size total i q m x (empty-cons m q i (slots xs) is.queue) go small
              (peek-cons m q i (slots xs) is.queue) load in
          rw run (elim (Bool-cases (ltb (size - total) o.size)) [
            | inl part ↦
                partial m q i o x xs free size total is pool seen node fuel (omega arith) go part
                  small
            | inr full ↦
                used_up m q i o x xs free size total is pool seen node fuel go full small
                  λ q' m' is' pool'.
                    match_at_level_loop_lem fuel size (total + o.size) m' q' xs (i ∷ free)
                      (omega arith) small is' pool'
          ])
    ]

-- `matchAtLevel` of a size below 2^32 at a level of given orders never faults and ends. It matches them first in, first
-- out, up to the quantity that is wanted: it returns the new total, leaves the orders that the rule on
-- lists leaves, in a queue of the same form, gives the slots of the orders that it used up back to the
-- pool, and changes nothing at any slot outside the level.
pub match_at_level_lem :
    (size total : ℕ) (m : Memory) (q : IntrusiveQueue) (xs : List Resting) (free : List ℕ)
    → size < uint32
    → IsLevel m q xs
    → IsPool order_overlay m free
    → Returns
        (LevelMatched m free (slots xs) (match_row size xs total))
        (match_at_level size q total m)
unfolding match_at_level
match_at_level_lem size total m q xs free small is pool =
    match_at_level_loop_lem (q.size + 1) size total m q xs free enough small is pool
  where
    enough : length xs < q.size + 1
    enough = omega (arith, is.queue.counted, length-slots xs)
