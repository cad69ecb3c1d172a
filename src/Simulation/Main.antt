-- ===== src/Simulation/Main.antt =====
-- `main` of project/entrypoint.cpp as a whole.
use cpp_trading_exchange.Base.{
  ℕ, ◌<◌, ◌≡◌, ◌⊎◌, ap, refl, subst, inl, inr, true, none, some, List, [], ◌∷◌, ◌++◌, arith, ◌==◌,
  has,
}
use cpp_trading_exchange.Base.Cmd.{Returns, Returns-some}
use cpp_trading_exchange.Pool.FreeList.{range}
use cpp_trading_exchange.Book.{OrderBook, uint32, order_book}
use cpp_trading_exchange.Book.Match.{IsBook}
use cpp_trading_exchange.Book.Add.{crossed}
use cpp_trading_exchange.Book.Initial.{order_book_lem}
use cpp_trading_exchange.RandomOrder.{
  fresh_generator, get_next_order_id, generate_random_size, generate_random_price,
}
use cpp_trading_exchange.Simulation.{Draws, Driver, round_on_book, round, rounds, main}
use cpp_trading_exchange.Simulation.Dangling.{drawn_type}
use cpp_trading_exchange.Simulation.Course.{Picks, Driving}
use cpp_trading_exchange.Simulation.Round.{full_round, kept_round, used_round}
use cpp_trading_exchange.Simulation.Arrival.{used-cases}

abbrev next_size : Draws → ℕ
next_size d = generate_random_size d.fractional_dis d.frac_val_dis d.dis

abbrev next_price : Draws → Driver → ℕ
next_price d s =
    (generate_random_price d.cluster_dis d.offset_dis d.wide_dis d.round_dis
      (get_next_order_id s.generator).1).0

-- Between two rounds: a well-formed book, and orders that rest in it, each tracked once.
abbrev pub IsDriving : Driver → Type 0
IsDriving s = Driving s.book s.orders

-- The round's order takes the slot `i`, and its match uses up the tracked order at `j`.
abbrev pub UsesUp : (d : Draws) (s : Driver) → IsDriving s → Type 0
UsesUp d s v =
    (j : ℕ) × (i : ℕ) × (free : List ℕ) × (v.free ≡ i ∷ free)
    × (has j s.orders ≡ true)
    × (has j
          (crossed (d.side_dis == 0) (drawn_type d) (next_price d s) (next_size d) v.bids
            v.asks).closed
        ≡ true)

next_size-lt : (d : Draws) → next_size d < uint32
unfolding generate_random_size
next_size-lt d = ground arith

-- A round is undefined if it uses up an order that the driver tracks, and keeps the state in form if not.
round_on_book-cases :
    (d : Draws) (s : Driver) (v : IsDriving s) (order_id : ℕ)
    → Picks d
    → (UsesUp d s v
        × (round_on_book d order_id (next_size d) (next_price d s) s.orders s.book ≡ none))
      ⊎ Returns
          (λ kept b'. Driving b' kept)
          (round_on_book d order_id (next_size d) (next_price d s) s.orders s.book)
round_on_book-cases d s v order_id picks = by_free v.free refl
  where
    by_free :
        (free : List ℕ)
        → v.free ≡ free
        → (UsesUp d s v
            × (round_on_book d order_id (next_size d) (next_price d s) s.orders s.book ≡ none))
          ⊎ Returns
              (λ kept b'. Driving b' kept)
              (round_on_book d order_id (next_size d) (next_price d s) s.orders s.book)
    by_free [] e = inr (
        full_round d picks order_id (next_size d) (next_price d s) (next_size-lt d) s.book s.orders
          v.bids v.asks v.distinct v.at (subst (IsBook s.book v.bids v.asks) e v.is))
    by_free (i ∷ free) e =
        let is = subst (IsBook s.book v.bids v.asks) e v.is in
        let r =
          crossed (d.side_dis == 0) (drawn_type d) (next_price d s) (next_size d) v.bids v.asks in
        elim (used-cases s.orders r.closed) [
          | inl (j, tracks, used) ↦ inl (
            (j, i, free, e, tracks, used),
            used_round d picks order_id (next_size d) (next_price d s) (next_size-lt d) s.book
                s.orders v.bids v.asks v.distinct v.at i free is j tracks used,
          )
          | inr kept ↦ inr (
              kept_round d picks order_id (next_size d) (next_price d s) (next_size-lt d) s.book
                s.orders v.bids v.asks v.distinct v.at i free is kept)
        ]

round-cases :
    (d : Draws) (s : Driver) (v : IsDriving s)
    → Picks d
    → (UsesUp d s v × (round d s ≡ none)) ⊎ ((s' : Driver) × (round d s ≡ some s') × IsDriving s')
unfolding round
round-cases d s v picks = elim (round_on_book-cases d s v (get_next_order_id s.generator).0 picks) [
  | inl (uses, run) ↦ inl (uses, rw (round, run) refl)
  | inr done ↦
      let (kept, b', run, still) = Returns-some done in
      let s' : Driver = record {
        book = b';
        generator =
            (generate_random_price d.cluster_dis d.offset_dis d.wide_dis d.round_dis
              (get_next_order_id s.generator).1).1;
        orders = kept;
      } in
      inr (s', rw (round, run) refl, still)
]

-- The run of all rounds is undefined from the first round on that uses up a tracked order.
abbrev pub Fails : List Draws → Driver → Type 0
Fails draws s =
    (before : List Draws) × (d : Draws) × (later : List Draws) × (s' : Driver) × (v : IsDriving s')
    × (draws ≡ before ++ d ∷ later)
    × (rounds before s ≡ some s')
    × UsesUp d s' v
    × (rounds draws s ≡ none)

-- The run of all rounds is defined, and ends in a well-formed book with all tracked orders at rest.
abbrev pub Finishes : List Draws → Driver → Type 0
Finishes draws s = (s' : Driver) × (rounds draws s ≡ some s') × IsDriving s'

abbrev pub AllPick : List Draws → Type 0
AllPick [] = Unit
AllPick (d ∷ draws) = Picks d × AllPick draws

rounds-cases :
    (draws : List Draws) (s : Driver)
    → IsDriving s
    → AllPick draws
    → Finishes draws s ⊎ Fails draws s
unfolding rounds
rounds-cases [] s v picks = inl (s, refl, v)
rounds-cases (d ∷ draws) s v (pick, picks) = elim (round-cases d s v pick) [
  | inl (uses, run) ↦ inr ([], d, draws, s, v, refl, refl, uses, rw (rounds, run) refl)
  | inr (s1, run, v1) ↦ elim (rounds-cases draws s1 v1 picks) [
    | inl (s2, runs, v2) ↦ inl (s2, rw (rounds, run) runs, v2)
    | inr (before, d', later, s2, v2, e, reaches, uses, fails) ↦ inr (
      d ∷ before,
      d',
      later,
      s2,
      v2,
      ap (◌∷◌ d) e,
      rw (rounds, run) reaches,
      uses,
      rw (rounds, run) fails,
    )
  ]
]

new_book-Driving : (b : OrderBook) (free : List ℕ) → IsBook b [] [] free → Driving b []
new_book-Driving b free is = record {
  bids = [];
  asks = [];
  free = free;
  is = is;
  distinct = tt;
  at = λ a h. cc;
}

-- The driver, whatever its draws, as long as an index to cancel is drawn below the size of the vector. A
-- run either is defined, and leaves a well-formed book in which all orders that it tracks rest, each
-- tracked once; or some round, reached by the rounds before it, has a match that uses up a tracked order,
-- and then the run is undefined. Nothing else goes wrong, whether the pool is exhausted or not.
pub main_lem :
    (draws : List Draws)
    → AllPick draws
    → (b : OrderBook) × (order_book "AAPL" 1024 ≡ some b)
      × (let s : Driver = record { book = b; generator = fresh_generator; orders = [] } in
          (main draws ≡ rounds draws s) × (Finishes draws s ⊎ Fails draws s))
unfolding main
main_lem draws picks =
    let (b, made, is, _) = order_book_lem "AAPL" 1024 (omega arith) (omega arith) in
    let s : Driver = record { book = b; generator = fresh_generator; orders = [] } in
    let start : IsDriving s = new_book-Driving b (range 0 1024) is in
    (b, made, (rw (main, made) refl, rounds-cases draws s start picks))
