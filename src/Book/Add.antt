-- ===== src/Book/Add.antt =====
-- `addOrder` of project/order_book.cpp as a whole.
use cpp_trading_exchange.Base.{
  ℕ, ◌-◌, ◌<◌, ◌≡◌, ◌∙◌, sym, ap, refl, Bool, true, false, none, some, List, [], ◌∷◌, ◌++◌, arith,
  ltb, if◌then◌else◌, has, has-append,
}
use mathlib.Core.List.{reverse}
use cpp_trading_exchange.Base.Cmd.{Returns, returns, Returns-bind, Returns-mono}
use cpp_trading_exchange.Pool.Laws.{allocate-nil}
use cpp_trading_exchange.Order.{Order, OrderType}
use cpp_trading_exchange.Order.Memory.{order_overlay}
use cpp_trading_exchange.Order.Access.{new_order}
use cpp_trading_exchange.Book.{
  OrderBook, uint32, in_pool, beyond_bid, beyond_ask, match_bid_order, match_ask_order,
  new_order_of, match_and_rest, add_order, rest_order,
}
use cpp_trading_exchange.Book.Rows.{release}
use cpp_trading_exchange.Book.Sweep.{Row, Swept, sweep, all_slots}
use cpp_trading_exchange.Book.Priority.{sweep-slots}
use cpp_trading_exchange.Book.Invariant.{has-all_slots-reverse}
use cpp_trading_exchange.Book.Match.{
  IsBook, match_bid_order_lem, match_ask_order_lem, sweep-room, length-all_slots-reverse,
}
use cpp_trading_exchange.Book.Pending.{Pending, new_order-Pending, decrease_order-Pending}
use cpp_trading_exchange.Book.Settle.{bids_with, asks_with, rest_order-IsBook}

-- The rule on lists for the side that an incoming order meets.
abbrev pub crossed : Bool → OrderType → ℕ → ℕ → List Row → List Row → Swept
crossed true type price size bids asks = sweep (beyond_bid type price) size asks 0
crossed false type price size bids asks = sweep (beyond_ask type price) size (reverse bids) 0

abbrev pub bids_left : Bool → Swept → List Row → List Row
bids_left true r bids = bids
bids_left false r bids = reverse r.rows

abbrev pub asks_left : Bool → Swept → List Row → List Row
asks_left true r asks = r.rows
asks_left false r asks = asks

-- A slot that is at no level before a sweep is at none after it.
sweep-apart :
    (i : ℕ) (beyond : ℕ → Bool) (size : ℕ) (rs : List Row)
    → has i (all_slots rs) ≡ false
    → has i (all_slots (sweep beyond size rs 0).rows) ≡ false
sweep-apart i beyond size rs miss =
    let r = sweep beyond size rs 0 in
    let e : has i (r.closed ++ all_slots r.rows) ≡ false =
      ap (has i) (sym (sweep-slots beyond size rs 0)) ∙ miss in
    ground (arith, has-append i r.closed (all_slots r.rows))

module _ (i : ℕ) (o : Order) (b : OrderBook) (bids asks : List Row) (free : List ℕ) (price size : ℕ)
    (type : OrderType) (small : size < uint32) (is : Pending i o b bids asks free) where
  bid-Pending :
      let r = sweep (beyond_bid type price) size asks 0 in
      Returns
        (λ t b'.
          (t ≡ r.total)
          × Pending i o b' bids r.rows (release r.closed free)
          × (b'.symbol ≡ b.symbol))
        (match_bid_order price size type 0 b)
  bid-Pending =
      Returns-mono (match_bid_order_lem price size type 0 b bids asks free small is.book)
        λ t b' (et, book, es, frame). (
          et,
          record {
            book = book;
            node = frame.nodes i is.not_ask ∙ is.node;
            seen = frame.views i is.not_ask ∙ is.seen;
            not_bid = is.not_bid;
            not_ask = sweep-apart i (beyond_bid type price) size asks is.not_ask;
            spare = omega (arith, is.spare, sweep-room (beyond_bid type price) size asks 0 free);
          },
          es,
        )

  ask-Pending :
      let r = sweep (beyond_ask type price) size (reverse bids) 0 in
      Returns
        (λ t b'.
          (t ≡ r.total)
          × Pending i o b' (reverse r.rows) asks (release r.closed free)
          × (b'.symbol ≡ b.symbol))
        (match_ask_order price size type 0 b)
  ask-Pending =
      Returns-mono (match_ask_order_lem price size type 0 b bids asks free small is.book)
        λ t b' (et, book, es, frame).
          let beyond = beyond_ask type price in
          let r = sweep beyond size (reverse bids) 0 in
          (
            et,
            record {
              book = book;
              node = frame.nodes i is.not_bid ∙ is.node;
              seen = frame.views i is.not_bid ∙ is.seen;
              not_bid =
                  has-all_slots-reverse i r.rows
                  ∙ sweep-apart i beyond size (reverse bids)
                      (has-all_slots-reverse i bids ∙ is.not_bid);
              not_ask = is.not_ask;
              spare = omega (
                arith,
                is.spare,
                sweep-room beyond size (reverse bids) 0 free,
                length-all_slots-reverse bids,
                length-all_slots-reverse r.rows,
              );
            },
            es,
          )

  match-Pending :
      (s : Bool)
      → let r = crossed s type price size bids asks in
        Returns
          (λ t b'.
            (t ≡ r.total)
            × Pending i o b' (bids_left s r bids) (asks_left s r asks) (release r.closed free)
            × (b'.symbol ≡ b.symbol))
          ((if s then match_bid_order price size type 0 else match_ask_order price size type 0) b)
  match-Pending true = bid-Pending
  match-Pending false = ask-Pending

-- Where an order ends: at the level of its price if something of it is left, and at no level, but
-- still in the pool, if nothing is.
abbrev pub Entered : Bool → Bool → ℕ → Order → OrderBook → List Row → List Row → List ℕ → Type 0
Entered true s i o b bids asks free = IsBook b (bids_with s i o bids) (asks_with s i o asks) free
Entered false s i o b bids asks free = Pending i o b bids asks free

enter :
    (i : ℕ) (o : Order) (b : OrderBook) (bids asks : List Row) (free : List ℕ) (s left : Bool)
    → Pending i o b bids asks free
    → o.is_buy_side ≡ s
    → (left ≡ true → 0 < o.size)
    → Returns
        (λ _ b'. Entered left s i o b' bids asks free × (b'.symbol ≡ b.symbol))
        ((if left then rest_order o.price i s else λ b0. some (tt, b0)) b)
enter i o b bids asks free s true is side some_left =
    rest_order-IsBook b bids asks i free o s is side (some_left refl)
enter i o b bids asks free s false is side some_left = returns (is, refl)

module _ (order_id client_id size price : ℕ) (s : Bool) (type : OrderType) (b : OrderBook)
    (bids asks : List Row) where
  -- `addOrder` of a size below 2^32 in a well-formed book with a free slot never faults and ends, and returns the order at
  -- the first free slot. The order is matched against the other side by the rule on lists, in price and
  -- time order; what is left of it rests behind the others of its price, and the book keeps its
  -- invariant. If nothing is left it comes to no level, and its slot is not free again.
  pub add_order_lem :
      (i : ℕ) (free : List ℕ)
      → size < uint32
      → IsBook b bids asks (i ∷ free)
      → let r = crossed s type price size bids asks in
        let o = record (new_order_of b.symbol order_id client_id size price s type) {
          size = size - r.total;
        } in
        Returns
          (λ p b'.
            (p ≡ some i)
            × Entered
                (ltb r.total size)
                s
                i
                o
                b'
                (bids_left s r bids)
                (asks_left s r asks)
                (release r.closed free)
            × (b'.symbol ≡ b.symbol))
          (add_order order_id client_id size price s type b)
  unfolding add_order match_and_rest new_order_of
  add_order_lem i free small is =
      let o = new_order_of b.symbol order_id client_id size price s type in
      let r = crossed s type price size bids asks in
      Returns-bind (new_order-Pending b bids asks i free o is refl refl) λ p b1 (ep, pending, e1).
        rw ep (
          Returns-bind (match-Pending i o b1 bids asks free price size type small pending s)
            λ t b2 (et, pending2, e2). rw et (
              Returns-bind (decrease_order-Pending b2 _ _ i r.total _ o pending2)
                λ _ b3 (pending3, e3).
                  Returns-bind
                    (enter i (record o { size = size - r.total }) b3 _ _ _ s (ltb r.total size)
                      pending3 refl (λ h. ground arith))
                    λ _ b4 (entered, e4). returns (refl, entered, e4 ∙ e3 ∙ e2 ∙ e1)))

  -- With no slot free in a well-formed book `addOrder` returns null, and the book stays as it is.
  pub add_order-full :
      IsBook b bids asks [] → add_order order_id client_id size price s type b ≡ some (none, b)
  unfolding add_order in_pool new_order
  add_order-full is = rw (
      allocate-nil order_overlay b.order_pool
        (new_order_of b.symbol order_id client_id size price s type) is.pool)
