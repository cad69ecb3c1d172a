-- ===== src/Simulation/Tracking.antt =====
-- The orders that project/entrypoint.cpp tracks as long as they rest in the book.
use cpp_trading_exchange.Base.{
  ℕ, ◌-◌, ◌<◌, ◌≡◌, ap, refl, inl, inr, Bool, true, false, ◌&&◌, not, some, List, [], ◌∷◌, ◌++◌,
  arith, ltb, ◌==◌, ==-refl, length, has,
}
use cpp_trading_exchange.Base.Cmd.{Cmd, pure, ◌>>=◌, Returns, returns, Returns-bind}
use cpp_trading_exchange.Order.{Order}
use cpp_trading_exchange.Order.Memory.{view}
use cpp_trading_exchange.Order.Access.{load_order_lem}
use cpp_trading_exchange.Book.{OrderBook, uint32, in_pool, new_order_of}
use cpp_trading_exchange.Book.Rows.{release}
use cpp_trading_exchange.Book.Sweep.{Row}
use cpp_trading_exchange.Book.Match.{IsBook}
use cpp_trading_exchange.Book.Located.{rest_row}
use cpp_trading_exchange.Book.Add.{crossed, bids_left, asks_left, Entered, add_order_lem}
use cpp_trading_exchange.Book.Alive.{Alive, AtLevel, AtLevel-Alive, AtLevel-crossed, has-rest_row}
use cpp_trading_exchange.Simulation.{
  Draws, is_empty, cancel_at, size_at, track, clean_up, round_on_book,
}
use cpp_trading_exchange.Simulation.Dangling.{drawn_type}

pub size_at-view :
    (b : OrderBook) (a : ℕ) (o : Order)
    → view b.order_pool a ≡ some o
    → size_at a b ≡ some (o.size, b)
unfolding size_at in_pool
size_at-view b a o h =
    let (x, run, same, _) = load_order_lem b.order_pool a h in
    rw (in_pool, run) (ap (λ (y : Order). some (y.size, b)) same)

abbrev pub AllAlive : OrderBook → List ℕ → Type 0
AllAlive b [] = Unit
AllAlive b (p ∷ orders) = Alive b p × AllAlive b orders

AllAlive-append :
    (b : OrderBook) (xs ys : List ℕ) → AllAlive b xs → AllAlive b ys → AllAlive b (xs ++ ys)
AllAlive-append b [] ys p q = q
AllAlive-append b (x ∷ xs) ys p q = (p.0, AllAlive-append b xs ys p.1 q)

-- Nothing is cleaned up while all orders have something left.
pub clean_up-alive :
    (b : OrderBook) (orders : List ℕ) → AllAlive b orders → clean_up orders b ≡ some (orders, b)
unfolding clean_up
clean_up-alive b [] h = refl
clean_up-alive b (p ∷ orders) ((o, seen, more), rest) =
    let used : (o.size == 0) ≡ false = ground (arith, more) in
    rw (clean_up, size_at-view b p o seen, clean_up-alive b orders rest, used) refl

pub each-alive :
    (b : OrderBook) (bids asks : List Row) (free : List ℕ) (orders : List ℕ)
    → IsBook b bids asks free
    → ((a : ℕ) → has a orders ≡ true → AtLevel a bids asks)
    → AllAlive b orders
each-alive b bids asks free [] is at = tt
each-alive b bids asks free (p ∷ orders) is at = (
  AtLevel-Alive b bids asks free p is (at p (ground (arith, ==-refl p))),
  each-alive b bids asks free orders is λ a h. at a (ground (arith, h)),
)

-- What comes after the tracking in a round.
abbrev pub round_tail : Draws → List ℕ → Cmd OrderBook (List ℕ)
round_tail d tracked =
    (elim (not (is_empty tracked) && d.cancels) [
      | true ↦ cancel_at (d.index_to_cancel (length tracked)) tracked
      | false ↦ pure tracked
    ])
    >>= clean_up

quiet_tail :
    (d : Draws) (b : OrderBook) (tracked : List ℕ)
    → d.cancels ≡ false
    → AllAlive b tracked
    → round_tail d tracked b ≡ some (tracked, b)
quiet_tail d b [] quiet alive = clean_up-alive b [] alive
quiet_tail d b (p ∷ orders) quiet alive = rw (quiet, clean_up-alive b (p ∷ orders) alive) refl

-- The orders that a round tracks in the end.
abbrev pub tracked_after : Bool → ℕ → List ℕ → List ℕ
tracked_after true i orders = orders ++ i ∷ []
tracked_after false i orders = orders

Entered-Alive :
    (s : Bool) (i : ℕ) (o : Order) (b : OrderBook) (bids asks : List Row) (free : List ℕ)
    (orders : List ℕ)
    → Entered true s i o b bids asks free
    → ((a : ℕ) → has a orders ≡ true → AtLevel a bids asks)
    → Alive b i × AllAlive b orders
Entered-Alive true i o b bids asks free orders is at =
    let here = has-rest_row i o.price i o bids in
    let stays : (a : ℕ) → has a orders ≡ true → AtLevel a (rest_row o.price (i, o) bids) asks =
      λ a h. elim (at a h) [
        | inl hit ↦ inl (ground (arith, has-rest_row a o.price i o bids, hit))
        | inr hit ↦ inr hit
      ] in
    (
      AtLevel-Alive b _ asks free i is (inl (ground (arith, here, ==-refl i))),
      each-alive b _ asks free orders is stays,
    )
Entered-Alive false i o b bids asks free orders is at =
    let here = has-rest_row i o.price i o asks in
    let stays : (a : ℕ) → has a orders ≡ true → AtLevel a bids (rest_row o.price (i, o) asks) =
      λ a h. elim (at a h) [
        | inl hit ↦ inl hit
        | inr hit ↦ inr (ground (arith, has-rest_row a o.price i o asks, hit))
      ] in
    (
      AtLevel-Alive b bids _ free i is (inr (ground (arith, here, ==-refl i))),
      each-alive b bids _ free orders is stays,
    )

pub track-view :
    (b : OrderBook) (i : ℕ) (orders : List ℕ) (o : Order) (more : Bool)
    → view b.order_pool i ≡ some o
    → ltb 0 o.size ≡ more
    → track (some i) orders b ≡ some (tracked_after more i orders, b)
unfolding track
track-view b i orders o true seen big = rw (track, size_at-view b i o seen, big) refl
track-view b i orders o false seen none_left = rw (track, size_at-view b i o seen, none_left) refl

-- The tracking and all that follows, once the order has entered.
after_add :
    (d : Draws) (left s : Bool) (i : ℕ) (o : Order) (b : OrderBook) (bids asks : List Row)
    (free : List ℕ) (orders : List ℕ)
    → d.cancels ≡ false
    → Entered left s i o b bids asks free
    → (left ≡ false → o.size ≡ 0)
    → ((a : ℕ) → has a orders ≡ true → AtLevel a bids asks)
    → (track (some i) orders >>= round_tail d) b ≡ some (tracked_after left i orders, b)
after_add d true s i o b bids asks free orders quiet is none_left at =
    let ((x, seen, more), rest) = Entered-Alive s i o b bids asks free orders is at in
    rw (track-view b i orders x true seen (ground (arith, more))) (
      quiet_tail d b (orders ++ i ∷ []) quiet
        (AllAlive-append b orders (i ∷ []) rest ((x, seen, more), tt)))
after_add d false s i o b bids asks free orders quiet is none_left at =
    rw (track-view b i orders o false is.seen (ground (arith, none_left refl)))
      (quiet_tail d b orders quiet (each-alive b bids asks free orders is.book at))

-- A round of the driver that cancels nothing, with an order of a size below 2^32 entering a well-formed
-- book with a free slot, is defined and ends if every order that the driver tracks rests in the book and
-- is not used up by the match. The driver then tracks the same orders and, if something of it is left,
-- the new one; the book is what `addOrder` leaves.
pub round-tracked :
    (d : Draws) (order_id size price : ℕ) (orders : List ℕ) (b : OrderBook) (bids asks : List Row)
    (i : ℕ) (free : List ℕ)
    → size < uint32
    → IsBook b bids asks (i ∷ free)
    → d.cancels ≡ false
    → ((a : ℕ)
        → has a orders ≡ true
        → AtLevel a bids asks
          × (has a (crossed (d.side_dis == 0) (drawn_type d) price size bids asks).closed ≡ false))
    → let s = d.side_dis == 0 in
      let r = crossed s (drawn_type d) price size bids asks in
      let o = record (new_order_of b.symbol order_id d.client_id size price s (drawn_type d)) {
        size = size - r.total;
      } in
      Returns
        (λ kept b'.
          (kept ≡ tracked_after (ltb r.total size) i orders)
          × Entered
              (ltb r.total size)
              s
              i
              o
              b'
              (bids_left s r bids)
              (asks_left s r asks)
              (release r.closed free))
        (round_on_book d order_id size price orders b)
unfolding round_on_book
round-tracked d order_id size price orders b bids asks i free small is quiet at =
    let s = d.side_dis == 0 in
    let type = drawn_type d in
    let r = crossed s type price size bids asks in
    let o = record (new_order_of b.symbol order_id d.client_id size price s type) {
      size = size - r.total;
    } in
    Returns-bind (add_order_lem order_id d.client_id size price s type b bids asks i free small is)
      λ p b1 (ep, entered, _).
        let run =
          after_add d (ltb r.total size) s i o b1 _ _ _ orders quiet entered
            (λ used. ground (arith, used))
            λ a h. AtLevel-crossed s type price size bids asks a (at a h).0 (at a h).1 in
        rw (ep, run) (returns (refl, entered))
