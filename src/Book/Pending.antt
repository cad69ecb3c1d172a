-- ===== src/Book/Pending.antt =====
-- The phases of `addOrder` of project/order_book.cpp: the new order gets its place, then it is in the
-- pool and at no level, then it is made smaller.
use cpp_trading_exchange.Base.{
  ℕ, ◌+◌, ◌-◌, ◌<◌, ◌≡◌, ◌≢◌, ◌∙◌, sym, ap, refl, inl, inr, Bool, Bool-cases, true, false, Option,
  none, some, List, [], ◌∷◌, arith, ◌==◌, length, has, has-append,
}
use cpp_trading_exchange.Base.Cmd.{Cmd, Returns, returns, Returns-bind, Returns-mono}
use cpp_trading_exchange.Queue.{null_node, size_t}
use cpp_trading_exchange.Pool.FreeList.{IsPool}
use cpp_trading_exchange.Order.{Order, decrease_size}
use cpp_trading_exchange.Order.Memory.{Memory, strip, view, get_node, order_overlay}
use cpp_trading_exchange.Order.Access.{
  Frame, new_order, new_order_lem, load_order, load_order_lem, store_order, store_order_lem,
}
use cpp_trading_exchange.Book.{OrderBook, PriceLevels, in_pool, decrease_order}
use cpp_trading_exchange.Book.Rows.{slots}
use cpp_trading_exchange.Book.Sweep.{Row, all_slots}
use cpp_trading_exchange.Book.Side.{WellPlaced, IsSide, Live-has}
use cpp_trading_exchange.Book.Invariant.{HoldsSide, HoldsSide-WellPlaced}
use cpp_trading_exchange.Book.Match.{IsBook, HoldsSide-Frame}

-- A command in the pool does to the book what it does to the pool.
pub in_pool_lem :
    {A : Type 0} {P : A → Memory → Type 0} (c : Cmd Memory A) (b : OrderBook)
    → Returns P (c b.order_pool)
    → Returns (λ a b'. (m : Memory) × P a m × (b' ≡ record b { order_pool = m })) (in_pool c b)
unfolding in_pool
in_pool_lem {A} {P} c b h = in_book h
  where
    in_book :
        {run : Option (A × Memory)}
        → Returns P run
        → Returns
            (λ a b'. (m : Memory) × P a m × (b' ≡ record b { order_pool = m }))
            (elim run [ none ↦ none | some (a, m) ↦ some (a, record b { order_pool = m }) ])
    in_book (returns p) = returns (_, p, refl)

side-live :
    (m : Memory) (s : Bool) (ls : PriceLevels) (rs : List Row)
    → IsSide m ls rs
    → WellPlaced s rs
    → (a : ℕ) → has a (all_slots rs) ≡ true
    → view m a ≢ none
unfolding all_slots
side-live m s [] [] is w a h = cc
side-live m s [] (r ∷ rs) is w a h = elim is [ ]
side-live m s (l ∷ ls) [] is w a h = elim is [ ]
side-live m s (l ∷ ls) ((k, xs) ∷ rs) is w a h = elim (Bool-cases (has a (slots xs))) [
  | inl hit ↦ let (o, e, _, _) = Live-has m s k a xs (is.1).live w.2 hit in λ no. cc
  | inr miss ↦
      side-live m s ls rs is.2 w.3 a (ground (arith, has-append a (slots xs) (all_slots rs)))
]

-- A slot that holds no order is at no level of a side.
dead-apart :
    (m : Memory) (s : Bool) (ls : PriceLevels) (rs : List Row) (i : ℕ)
    → HoldsSide m s ls rs
    → view m i ≡ none
    → has i (all_slots rs) ≡ false
dead-apart m s ls rs i h dead = elim (Bool-cases (has i (all_slots rs))) [
  | inl hit ↦ absurd (side-live m s ls rs h.side (HoldsSide-WellPlaced h) i hit dead)
  | inr miss ↦ miss
]

pub apart_one :
    (i : ℕ) (xs : List ℕ) → has i xs ≡ false → (a : ℕ) → has a xs ≡ true → has a (i ∷ []) ≡ false
apart_one i xs miss a hit = elim (Bool-cases (a == i)) [
  | inl e ↦ let same : a ≡ i = ground arith in absurd (cc)
  | inr e ↦ ground arith
]

-- The order `o` is in the pool at slot `i`, and at no level.
pub record Pending (i : ℕ) (o : Order) (b : OrderBook) (bids asks : List Row) (free : List ℕ)
    : Type 0 where
  pub book : IsBook b bids asks free
  pub node : get_node b.order_pool i ≡ some null_node
  pub seen : view b.order_pool i ≡ some o
  pub not_bid : has i (all_slots bids) ≡ false
  pub not_ask : has i (all_slots asks) ≡ false
  pub spare : length free + (length (all_slots bids) + length (all_slots asks)) + 1 < size_t

-- A change at the slot of the pending order alone keeps the book.
pub IsBook-Frame :
    (b : OrderBook) (m' : Memory) (bids asks : List Row) (free' : List ℕ) (i : ℕ)
    → HoldsSide b.order_pool true b.bid_levels bids
    → HoldsSide b.order_pool false b.ask_levels asks
    → has i (all_slots bids) ≡ false
    → has i (all_slots asks) ≡ false
    → Frame (i ∷ []) b.order_pool m'
    → IsPool order_overlay m' free'
    → length free' + (length (all_slots bids) + length (all_slots asks)) < size_t
    → IsBook (record b { order_pool = m' }) bids asks free'
IsBook-Frame b m' bids asks free' i bid ask nb na f pool room = record {
  pool = pool;
  bid_side = HoldsSide-Frame (i ∷ []) f (apart_one i (all_slots bids) nb) bid;
  ask_side = HoldsSide-Frame (i ∷ []) f (apart_one i (all_slots asks) na) ask;
  room = room;
}

pub new_order-Pending :
    (b : OrderBook) (bids asks : List Row) (i : ℕ) (free : List ℕ) (o : Order)
    → IsBook b bids asks (i ∷ free)
    → o.list_node ≡ null_node
    → strip o ≡ o
    → Returns
        (λ p b'. (p ≡ some i) × Pending i o b' bids asks free × (b'.symbol ≡ b.symbol))
        (in_pool (new_order o) b)
new_order-Pending b bids asks i free o is no_node plain =
    let (m', run, new, pool, dead) = new_order_lem b.order_pool o i free is.pool in
    let nb = dead-apart b.order_pool true b.bid_levels bids i is.bid_side dead in
    let na = dead-apart b.order_pool false b.ask_levels asks i is.ask_side dead in
    Returns-mono
      (in_pool_lem {P = λ p m. (p ≡ some i) × (m ≡ m')} (new_order o) b
        (rw run (returns (refl, refl))))
      λ p b' (m, (ep, em), eb).
        rw (eb, em)
          (
            ep,
            record {
              book =
                  IsBook-Frame b m' bids asks free i is.bid_side is.ask_side nb na new.frame pool
                    (omega (arith, is.room));
              node = new.node ∙ ap some no_node;
              seen = new.seen ∙ ap some plain;
              not_bid = nb;
              not_ask = na;
              spare = omega (arith, is.room);
            },
            refl,
          )

decrease_size_eq : (o : Order) (n : ℕ) → (decrease_size o n).0 ≡ record o { size = o.size - n }
unfolding decrease_size
decrease_size_eq o n = ground arith

strip-node : (x o : Order) → strip x ≡ o → x.list_node ≡ null_node → x ≡ o
strip-node x o e n = ground arith

pub decrease_order-Pending :
    (b : OrderBook) (bids asks : List Row) (i n : ℕ) (free : List ℕ) (o : Order)
    → Pending i o b bids asks free
    → Returns
        (λ _ b'.
          Pending i (record o { size = o.size - n }) b' bids asks free × (b'.symbol ≡ b.symbol))
        (decrease_order i n b)
unfolding decrease_order
decrease_order-Pending b bids asks i n free o is =
    let (x, loaded, same, at_node) = load_order_lem b.order_pool i is.seen in
    let less : Order = record o { size = o.size - n } in
    let e : x ≡ o = strip-node x o same (null_links x at_node) in
    let plain : strip o ≡ o = ap strip (sym e) ∙ same in
    let (m', stored, new, pool) =
      store_order_lem b.order_pool i (decrease_size x n).0 free is.seen is.book.pool in
    let changed : (decrease_size x n).0 ≡ less =
      ap (λ y. (decrease_size y n).0) e ∙ decrease_size_eq o n in
    Returns-bind
      (in_pool_lem {P = λ y m. (y ≡ x) × (m ≡ b.order_pool)} (load_order i) b
        (rw loaded (returns (refl, refl))))
      λ y b1 (m1, (ey, em), eb).
        rw (eb, em, ey)
          (Returns-mono
            (in_pool_lem {P = λ _ m2. m2 ≡ m'} (store_order i (decrease_size x n).0) b
              (rw stored (returns refl)))
            λ _ b2 (m2, em2, eb2).
              rw (eb2, em2)
                (
                  record {
                    book =
                        IsBook-Frame b m' bids asks free i is.book.bid_side is.book.ask_side
                          is.not_bid is.not_ask new.frame pool is.book.room;
                    node =
                        new.node
                        ∙ ap (λ (y : Order). some y.list_node) changed
                        ∙ ap (λ (y : Order). some y.list_node) (sym plain);
                    seen =
                        new.seen
                        ∙ ap (λ y. some (strip y)) changed
                        ∙ ap (λ (y : Order). some (record y { size = o.size - n })) plain;
                    not_bid = is.not_bid;
                    not_ask = is.not_ask;
                    spare = is.spare;
                  },
                  refl,
                ))
  where
    null_links : (x : Order) → get_node b.order_pool i ≡ some x.list_node → x.list_node ≡ null_node
    null_links x h = ground (arith, is.node)
