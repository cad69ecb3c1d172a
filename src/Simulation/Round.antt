-- ===== src/Simulation/Round.antt =====
-- One round of project/entrypoint.cpp on a book whose tracked orders rest.
use cpp_trading_exchange.Base.{
  ℕ, ◌<◌, ◌≡◌, sym, subst, inl, inr, Bool-cases, true, false, none, some, List, [], ◌∷◌, arith, ltb,
  ◌==◌, ==-refl, has, Distinct,
}
use cpp_trading_exchange.Base.Cmd.{Returns, Returns-bind, Returns-mono}
use cpp_trading_exchange.Book.{OrderBook, uint32, new_order_of, add_order}
use cpp_trading_exchange.Book.Rows.{release}
use cpp_trading_exchange.Book.Sweep.{Row}
use cpp_trading_exchange.Book.Match.{IsBook}
use cpp_trading_exchange.Book.Add.{crossed, bids_left, asks_left, add_order_lem, add_order-full}
use cpp_trading_exchange.Simulation.{Draws, track, round_on_book}
use cpp_trading_exchange.Book.Alive.{AtLevel, AtLevel-crossed}
use cpp_trading_exchange.Simulation.Dangling.{drawn_type, has-release, Returns-fault}
use cpp_trading_exchange.Simulation.Tracking.{tracked_after, track-view}
use cpp_trading_exchange.Simulation.Arrival.{
  Arrived, Entered-Arrived, has-tracked_after, tracked_after-has, Distinct-tracked_after,
}
use cpp_trading_exchange.Simulation.Course.{
  Picks, Driving, AtLevel-not_free, tail_rests, tail_dangles,
}

module _ (d : Draws) (picks : Picks d) (order_id size price : ℕ) (small : size < uint32)
    (b : OrderBook) (orders : List ℕ) (bids asks : List Row) (distinct : Distinct orders)
    (at : (a : ℕ) → has a orders ≡ true → AtLevel a bids asks) where
  -- No slot is free, and the round adds nothing.
  pub full_round :
      IsBook b bids asks []
      → Returns (λ kept b'. Driving b' kept) (round_on_book d order_id size price orders b)
  unfolding round_on_book track
  full_round is =
      rw
        (add_order-full order_id d.client_id size price (d.side_dis == 0) (drawn_type d) b bids asks
          is)
        (tail_rests d picks b bids asks [] orders is distinct at)

  module _ (i : ℕ) (free : List ℕ) (is : IsBook b bids asks (i ∷ free)) where
    new_slot : has i orders ≡ false
    new_slot = elim (Bool-cases (has i orders)) [
      | inr miss ↦ miss
      | inl hit ↦
          let live = AtLevel-not_free b bids asks (i ∷ free) i is (at i hit) in
          absurd (ground (arith, live, ==-refl i))
    ]

    -- The book after the order has come in, and what the driver then tracks.
    arrival :
        let s = d.side_dis == 0 in
        let r = crossed s (drawn_type d) price size bids asks in
        Returns
          (λ p b'.
            (p ≡ some i)
            × Arrived
                (ltb r.total size)
                i
                b'
                (bids_left s r bids)
                (asks_left s r asks)
                (release r.closed free))
          (add_order order_id d.client_id size price s (drawn_type d) b)
    unfolding new_order_of
    arrival =
        Returns-mono
          (add_order_lem order_id d.client_id size price (d.side_dis == 0) (drawn_type d) b bids
            asks i free small is)
          λ p b' (ep, entered, _). (
            ep,
            Entered-Arrived _ (d.side_dis == 0) i _ b' _ _ _ entered λ used. ground (arith, used),
          )

    -- The match uses up no order that the driver tracks.
    pub kept_round :
        ((a : ℕ)
          → has a orders ≡ true
          → has a (crossed (d.side_dis == 0) (drawn_type d) price size bids asks).closed ≡ false)
        → Returns (λ kept b'. Driving b' kept) (round_on_book d order_id size price orders b)
    unfolding round_on_book
    kept_round kept =
        let s = d.side_dis == 0 in
        let r = crossed s (drawn_type d) price size bids asks in
        let left = ltb r.total size in
        Returns-bind arrival λ p b1 (ep, new).
          rw (ep, track-view b1 i orders new.order left new.seen new.some_left)
            (tail_rests d picks b1 new.bids' new.asks' (release r.closed free)
              (tracked_after left i orders) new.is
              (Distinct-tracked_after left i orders distinct new_slot)
              λ a h. elim (has-tracked_after left i orders a h) [
                | inl old ↦ new.stays a (
                    AtLevel-crossed s (drawn_type d) price size bids asks a (at a old) (kept a old))
                | inr (some_left, same) ↦
                    subst (λ x. AtLevel x new.bids' new.asks') (sym same) (new.here some_left)
              ])

    -- The match uses up an order that the driver tracks.
    pub used_round :
        (j : ℕ)
        → has j orders ≡ true
        → has j (crossed (d.side_dis == 0) (drawn_type d) price size bids asks).closed ≡ true
        → round_on_book d order_id size price orders b ≡ none
    unfolding round_on_book
    used_round j tracks used =
        let s = d.side_dis == 0 in
        let r = crossed s (drawn_type d) price size bids asks in
        let left = ltb r.total size in
        Returns-fault _ arrival λ p b1 (ep, new).
          rw (ep, track-view b1 i orders new.order left new.seen new.some_left)
            (tail_dangles d picks b1 new.bids' new.asks' (release r.closed free)
              (tracked_after left i orders) new.is
              (Distinct-tracked_after left i orders distinct new_slot) j
              (tracked_after-has left i orders j tracks) (has-release j r.closed free used)
              λ a h. elim (has-tracked_after left i orders a h) [
                | inl old ↦ elim (Bool-cases (has a r.closed)) [
                  | inl gone ↦ inr (has-release a r.closed free gone)
                  | inr stays ↦ inl (
                      new.stays a
                        (AtLevel-crossed s (drawn_type d) price size bids asks a (at a old) stays))
                ]
                | inr (some_left, same) ↦
                    inl (subst (λ x. AtLevel x new.bids' new.asks') (sym same) (new.here some_left))
              ])
