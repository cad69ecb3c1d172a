-- ===== src/Book/Cancel.antt =====
-- `cancelOrder` of project/order_book.cpp as a whole.
use cpp_trading_exchange.Base.{
  ℕ, ◌≡◌, ◌∙◌, ap, refl, Bool, true, false, ◌||◌, none, some, List, [], ◌∷◌, ◌++◌, arith, has,
  has-append,
}
use cpp_trading_exchange.Base.Cmd.{◌>>◌, Returns, returns, Returns-bind, Returns-mono}
use cpp_trading_exchange.Order.{Order}
use cpp_trading_exchange.Order.Memory.{Memory, view}
use cpp_trading_exchange.Order.Access.{load_order, load_order_lem, delete_order, delete_order_lem}
use cpp_trading_exchange.Book.{
  OrderBook, PriceLevels, in_pool, levels_of, set_levels, remove_at, cancel_order,
}
use cpp_trading_exchange.Book.Rows.{Resting, slots}
use cpp_trading_exchange.Book.Sweep.{Row, all_slots}
use cpp_trading_exchange.Book.Side.{Placed}
use cpp_trading_exchange.Book.Invariant.{HoldsSide, HoldsSide-WellPlaced}
use cpp_trading_exchange.Book.Match.{IsBook, HoldsSide-Frame, HoldsSide-apart}
use cpp_trading_exchange.Book.Pending.{in_pool_lem, IsBook-Frame}
use cpp_trading_exchange.Book.RestRow.{slots-append}
use cpp_trading_exchange.Book.Rest.{around}
use cpp_trading_exchange.Book.Split.{
  level_row, has-level, length-level_row, Live-drop, IsSide-split,
}
use cpp_trading_exchange.Book.Strike.{first-IsLevel, remove_at_lem}

Placed-at :
    (s : Bool) (k : ℕ) (xs : List Resting) (i : ℕ) (o : Order) (ys : List Resting)
    → Placed s k (xs ++ (i, o) ∷ ys)
    → (o.price ≡ k) × (o.is_buy_side ≡ s)
Placed-at s k [] i o ys p = (p.0, p.1)
Placed-at s k (x ∷ xs) i o ys p = Placed-at s k xs i o ys p.3

-- What stands at the slot of an order that rests.
resting :
    (m : Memory) (s : Bool) (ls : PriceLevels) (k i : ℕ) (o : Order) (below : List Row)
    (xs ys : List Resting) (above : List Row)
    → HoldsSide m s ls (below ++ (k, xs ++ (i, o) ∷ ys) ∷ above)
    → (view m i ≡ some o) × (o.price ≡ k) × (o.is_buy_side ≡ s)
resting m s ls k i o below xs ys above h =
    let (lower, us, e, pl, pu) = IsSide-split m ls below ((k, xs ++ (i, o) ∷ ys) ∷ above) h.side in
    let (q, upper, e', level, pu') = first-IsLevel m us k (xs ++ (i, o) ∷ ys) above pu in
    let p = around s k below (xs ++ (i, o) ∷ ys) above (HoldsSide-WellPlaced h) in
    let at = Placed-at s k xs i o ys p.middle in ((Live-drop m xs i o ys level.live).0, at.0, at.1)

-- The book, with the rows of the side `s` first.
abbrev pub IsBookOf : Bool → OrderBook → List Row → List Row → List ℕ → Type 0
IsBookOf true b rows others free = IsBook b rows others free
IsBookOf false b rows others free = IsBook b others rows free

-- The levels of a side taken out and put back.
abbrev with_levels : Bool → OrderBook → PriceLevels → Memory → OrderBook
with_levels true b ls m = record b { bid_levels = ls; order_pool = m }
with_levels false b ls m = record b { ask_levels = ls; order_pool = m }

module _ (k i : ℕ) (o : Order) (below : List Row) (xs ys : List Resting)
    (above others : List Row) where
  level-hit : has i (slots (xs ++ (i, o) ∷ ys)) ≡ true
  level-hit =
      ap (has i) (slots-append xs ((i, o) ∷ ys))
      ∙ ground (arith, has-append i (slots xs) (i ∷ slots ys))

  -- The other side shares no slot with the level.
  outside :
      ((a : ℕ)
        → has a (all_slots others) ≡ true
        → has a (all_slots (below ++ (k, xs ++ (i, o) ∷ ys) ∷ above)) ≡ false)
      → (a : ℕ) → has a (all_slots others) ≡ true
      → has a (slots (xs ++ (i, o) ∷ ys)) ≡ false
  outside apart a hit = ground (arith, apart a hit, has-level a k below (xs ++ (i, o) ∷ ys) above)

  at_none :
      ((a : ℕ)
        → has a (all_slots (below ++ (k, xs ++ (i, o) ∷ ys) ∷ above)) ≡ true
        → has a (all_slots others) ≡ false)
      → has i (all_slots others) ≡ false
  at_none apart = apart i (
      has-level i k below (xs ++ (i, o) ∷ ys) above
      ∙ inside (has i (all_slots below)) (has i (all_slots above)) level-hit)
    where
      inside : (l u : Bool) {h : Bool} → h ≡ true → (l || (h || u)) ≡ true
      inside l u e = ground arith

struck :
    (s : Bool) (b : OrderBook) (others : List Row) (free : List ℕ) (k i : ℕ) (o : Order)
    (below : List Row) (xs ys : List Resting) (above : List Row)
    → IsBookOf s b (below ++ (k, xs ++ (i, o) ∷ ys) ∷ above) others free
    → Returns
        (λ ls' m.
          (view m i ≡ some o)
          × ((m' : Memory) × (delete_order i m ≡ some (tt, m'))
              × IsBookOf s
                  (with_levels s b ls' m')
                  (below ++ (level_row k (xs ++ ys) ++ above))
                  others
                  (i ∷ free)))
        (remove_at k i (levels_of s b) b.order_pool)
unfolding levels_of
struck true b others free k i o below xs ys above is =
    Returns-mono
      (remove_at_lem b.order_pool true k i o below xs ys above free b.bid_levels is.bid_side
        is.pool)
      λ ls' m (held, pool, frame, seen, gone).
        let (m', run, dead, pool') = delete_order_lem m i free seen pool in
        let rows = below ++ (level_row k (xs ++ ys) ++ above) in
        let other : HoldsSide m false b.ask_levels others =
          HoldsSide-Frame (slots (xs ++ (i, o) ∷ ys)) frame
            (outside k i o below xs ys above others
              (HoldsSide-apart (λ e. cc) is.bid_side is.ask_side))
            is.ask_side in
        let na =
          at_none k i o below xs ys above others
            (HoldsSide-apart (λ e. cc) is.ask_side is.bid_side) in
        (
          seen,
          (
            m',
            run,
            IsBook-Frame (record b { bid_levels = ls'; order_pool = m }) m' rows others (i ∷ free) i
                held other gone na dead.frame pool'
                (omega (arith, is.room, length-level_row k below xs i o ys above)),
          ),
        )
struck false b others free k i o below xs ys above is =
    Returns-mono
      (remove_at_lem b.order_pool false k i o below xs ys above free b.ask_levels is.ask_side
        is.pool)
      λ ls' m (held, pool, frame, seen, gone).
        let (m', run, dead, pool') = delete_order_lem m i free seen pool in
        let rows = below ++ (level_row k (xs ++ ys) ++ above) in
        let other : HoldsSide m true b.bid_levels others =
          HoldsSide-Frame (slots (xs ++ (i, o) ∷ ys)) frame
            (outside k i o below xs ys above others
              (HoldsSide-apart (λ e. cc) is.ask_side is.bid_side))
            is.bid_side in
        let na =
          at_none k i o below xs ys above others
            (HoldsSide-apart (λ e. cc) is.bid_side is.ask_side) in
        (
          seen,
          (
            m',
            run,
            IsBook-Frame (record b { ask_levels = ls'; order_pool = m }) m' others rows (i ∷ free) i
                other held na gone dead.frame pool'
                (omega (arith, is.room, length-level_row k below xs i o ys above)),
          ),
        )

-- `cancelOrder` of an order that rests in a well-formed book never faults and ends. The order leaves
-- its level, the others keep their order, a level that it leaves empty is gone, its slot is the next
-- to be used, and the book keeps its invariant.
pub cancel_order_lem :
    (s : Bool) (b : OrderBook) (others : List Row) (free : List ℕ) (k i : ℕ) (o : Order)
    (below : List Row) (xs ys : List Resting) (above : List Row)
    → IsBookOf s b (below ++ (k, xs ++ (i, o) ∷ ys) ∷ above) others free
    → Returns
        (λ _ b'.
          IsBookOf s b' (below ++ (level_row k (xs ++ ys) ++ above)) others (i ∷ free)
          × (b'.symbol ≡ b.symbol))
        (cancel_order (some i) b)
unfolding cancel_order in_pool
cancel_order_lem s b others free k i o below xs ys above is =
    let (seen, price, side) = at_side s is in
    let (x, run, same, _) = load_order_lem b.order_pool i seen in
    let at_price : x.price ≡ k = ap (λ (y : Order). y.price) same ∙ price in
    let of_side : x.is_buy_side ≡ s = ap (λ (y : Order). y.is_buy_side) same ∙ side in
    Returns-bind
      (in_pool_lem {P = λ y m. (y ≡ x) × (m ≡ b.order_pool)} (load_order i) b
        (rw run (returns (refl, refl))))
      λ y b1 (m1, (ey, em), eb).
        rw (eb, em, ey, at_price, of_side)
          (Returns-bind
            (in_pool_lem (remove_at k i (levels_of s b)) b
              (struck s b others free k i o below xs ys above is))
            λ ls' b2 (m2, (seen2, (m', gone, book)), eb2). rw eb2 (finish s ls' m2 m' gone book))
  where
    at_side :
        (s : Bool)
        → IsBookOf s b (below ++ (k, xs ++ (i, o) ∷ ys) ∷ above) others free
        → (view b.order_pool i ≡ some o) × (o.price ≡ k) × (o.is_buy_side ≡ s)
    at_side true is = resting b.order_pool true b.bid_levels k i o below xs ys above is.bid_side
    at_side false is = resting b.order_pool false b.ask_levels k i o below xs ys above is.ask_side

    finish :
        (s : Bool) (ls' : PriceLevels) (m2 m' : Memory)
        → delete_order i m2 ≡ some (tt, m')
        → IsBookOf s
            (with_levels s b ls' m')
            (below ++ (level_row k (xs ++ ys) ++ above))
            others
            (i ∷ free)
        → Returns
            (λ _ b'.
              IsBookOf s b' (below ++ (level_row k (xs ++ ys) ++ above)) others (i ∷ free)
              × (b'.symbol ≡ b.symbol))
            ((set_levels s ls' >> in_pool (delete_order i)) (record b { order_pool = m2 }))
    finish true ls' m2 m' gone book = rw (set_levels, in_pool, gone) (returns (book, refl))
    finish false ls' m2 m' gone book = rw (set_levels, in_pool, gone) (returns (book, refl))

-- `cancelOrder(nullptr)` does nothing.
cancel_order-none : (b : OrderBook) → cancel_order none b ≡ some (tt, b)
unfolding cancel_order
cancel_order-none b = refl
