-- ===== src/Book/Settle.antt =====
-- The end of `addOrder` of project/order_book.cpp: what is left of the new order comes to rest.
use cpp_trading_exchange.Base.{ℕ, ◌<◌, ◌≡◌, refl, Bool, true, false, List, ◌∷◌, arith, has}
use cpp_trading_exchange.Base.Cmd.{Returns, returns, Returns-bind}
use cpp_trading_exchange.Queue.{null_node}
use cpp_trading_exchange.Order.{Order}
use cpp_trading_exchange.Book.{OrderBook, append_at, rest_order, set_levels}
use cpp_trading_exchange.Book.Sweep.{Row, all_slots}
use cpp_trading_exchange.Book.Match.{IsBook, HoldsSide-Frame, HoldsSide-apart}
use cpp_trading_exchange.Book.Located.{rest_row}
use cpp_trading_exchange.Book.RestRow.{length-rest_row}
use cpp_trading_exchange.Book.Rest.{append_at_lem}
use cpp_trading_exchange.Book.Pending.{Pending, in_pool_lem, apart_one}

-- What the levels of both sides hold once `o` has come to rest.
abbrev pub bids_with : Bool → ℕ → Order → List Row → List Row
bids_with true i o bids = rest_row o.price (i, o) bids
bids_with false i o bids = bids

abbrev pub asks_with : Bool → ℕ → Order → List Row → List Row
asks_with true i o asks = asks
asks_with false i o asks = rest_row o.price (i, o) asks

cons_apart :
    (i : ℕ) (xs ys : List ℕ)
    → has i ys ≡ false
    → ((a : ℕ) → has a ys ≡ true → has a xs ≡ false)
    → (a : ℕ) → has a ys ≡ true
    → has a (i ∷ xs) ≡ false
cons_apart i xs ys miss out a hit = ground (arith, apart_one i ys miss a hit, out a hit)

pub rest_order-IsBook :
    (b : OrderBook) (bids asks : List Row) (i : ℕ) (free : List ℕ) (o : Order) (s : Bool)
    → Pending i o b bids asks free
    → o.is_buy_side ≡ s
    → 0 < o.size
    → Returns
        (λ _ b'.
          IsBook b' (bids_with s i o bids) (asks_with s i o asks) free × (b'.symbol ≡ b.symbol))
        (rest_order o.price i s b)
unfolding rest_order
rest_order-IsBook b bids asks i free o true is side left =
    Returns-bind
      (in_pool_lem (append_at o.price i b.bid_levels) b (
        append_at_lem b.order_pool true b.bid_levels bids o.price i o null_node free
          is.book.bid_side (refl, side, left, tt) is.seen is.node is.not_bid
          (omega (arith, is.spare)) is.book.pool))
      λ levels b' (m, (held, pool, frame), e).
        rw (e, set_levels)
          (returns (
            record {
              pool = pool;
              bid_side = held;
              ask_side =
                  HoldsSide-Frame (i ∷ all_slots bids) frame
                    (cons_apart i (all_slots bids) (all_slots asks) is.not_ask
                      (HoldsSide-apart (λ e. cc) is.book.bid_side is.book.ask_side))
                    is.book.ask_side;
              room = omega (arith, is.spare, length-rest_row o.price i o bids);
            },
            refl,
          ))
rest_order-IsBook b bids asks i free o false is side left =
    Returns-bind
      (in_pool_lem (append_at o.price i b.ask_levels) b (
        append_at_lem b.order_pool false b.ask_levels asks o.price i o null_node free
          is.book.ask_side (refl, side, left, tt) is.seen is.node is.not_ask
          (omega (arith, is.spare)) is.book.pool))
      λ levels b' (m, (held, pool, frame), e).
        rw (e, set_levels)
          (returns (
            record {
              pool = pool;
              bid_side =
                  HoldsSide-Frame (i ∷ all_slots asks) frame
                    (cons_apart i (all_slots asks) (all_slots bids) is.not_bid
                      (HoldsSide-apart (λ e. cc) is.book.ask_side is.book.bid_side))
                    is.book.bid_side;
              ask_side = held;
              room = omega (arith, is.spare, length-rest_row o.price i o asks);
            },
            refl,
          ))
