-- ===== src/Simulation/Course.antt =====
-- A round of project/entrypoint.cpp, with or without a cancellation, on any book that it may meet.
use cpp_trading_exchange.Base.{
  ℕ, zero, suc, ◌<◌, ◌≡◌, ◌⊎◌, ◌∙◌, ap, refl, sym, subst, inl, inr, Bool-cases, true, false, ◌&&◌,
  not, none, some, List, [], ◌∷◌, arith, ltb, ◌==◌, ==-refl, length, has, get_elem?, get_elem?-some,
  Distinct,
}
use cpp_trading_exchange.Base.Cmd.{◌>>=◌, Returns, returns, Returns-bind}
use cpp_trading_exchange.Order.Access.{load_order_lem}
use cpp_trading_exchange.Book.{OrderBook}
use cpp_trading_exchange.Book.Sweep.{Row}
use cpp_trading_exchange.Book.Match.{IsBook}
use cpp_trading_exchange.Simulation.{Draws, cancel_at, erase_at, size_at, clean_up}
use cpp_trading_exchange.Book.Alive.{AtLevel, AtLevel-Alive}
use cpp_trading_exchange.Simulation.Dangling.{
  load_order-free, size_at-free, clean_up-free, Returns-fault,
}
use cpp_trading_exchange.Simulation.Tracking.{size_at-view, each-alive, clean_up-alive, round_tail}
use cpp_trading_exchange.Book.Resting.{Struck, cancel_order-Struck}

get_elem?-has : (xs : List ℕ) (i k : ℕ) → get_elem? xs i ≡ some k → has k xs ≡ true
get_elem?-has [] i k h = cc
get_elem?-has (x ∷ xs) zero k h = ground (arith, ==-refl k)
get_elem?-has (x ∷ xs) (suc i) k h = ground (arith, get_elem?-has xs i k h)

has-erase_at :
    (a : ℕ) (xs : List ℕ) (i k : ℕ)
    → Distinct xs
    → get_elem? xs i ≡ some k
    → has a (erase_at i xs) ≡ (has a xs && not (a == k))
unfolding erase_at
has-erase_at a [] i k d h = cc
has-erase_at a (x ∷ xs) zero k d h = ground (arith, d.0)
has-erase_at a (x ∷ xs) (suc i) k d h =
    ground (arith, has-erase_at a xs i k d.1 h, d.0, get_elem?-has xs i k h)

Distinct-erase_at :
    (xs : List ℕ) (i k : ℕ) → Distinct xs → get_elem? xs i ≡ some k → Distinct (erase_at i xs)
unfolding erase_at
Distinct-erase_at [] i k d h = cc
Distinct-erase_at (x ∷ xs) zero k d h = d.1
Distinct-erase_at (x ∷ xs) (suc i) k d h =
    (ground (arith, has-erase_at x xs i k d.1 h, d.0), Distinct-erase_at xs i k d.1 h)

-- The draws of an index stay below the size of the vector.
abbrev pub Picks : Draws → Type 0
Picks d = (n : ℕ) → 0 < n → d.index_to_cancel n < n

-- The state between two rounds: the book is well formed, the driver tracks orders that rest, each once.
pub record Driving (b : OrderBook) (orders : List ℕ) : Type 0 where
  pub bids : List Row
  pub asks : List Row
  pub free : List ℕ
  pub is : IsBook b bids asks free
  pub distinct : Distinct orders
  pub at : (a : ℕ) → has a orders ≡ true → AtLevel a bids asks

-- What follows the tracking: the clean up alone, or after a cancellation.
tail-cases :
    (d : Draws) (b : OrderBook) (tracked : List ℕ)
    → (round_tail d tracked b ≡ clean_up tracked b)
      ⊎ ((0 < length tracked)
          × (round_tail d tracked b
              ≡ (cancel_at (d.index_to_cancel (length tracked)) tracked >>= clean_up) b))
tail-cases d b [] = inl refl
tail-cases d b (p ∷ orders) = elim (Bool-cases d.cancels) [
  | inl cancels ↦ inr (omega arith, rw cancels refl)
  | inr quiet ↦ inl (rw quiet refl)
]

-- An order that rests is at no free slot.
pub AtLevel-not_free :
    (b : OrderBook) (bids asks : List Row) (free : List ℕ) (a : ℕ)
    → IsBook b bids asks free
    → AtLevel a bids asks
    → has a free ≡ false
AtLevel-not_free b bids asks free a is rests = elim (Bool-cases (has a free)) [
  | inr miss ↦ miss
  | inl hit ↦
      let dead = load_order-free b.order_pool a free is.pool hit in
      let (o, seen, _) = AtLevel-Alive b bids asks free a is rests in
      let (x, run, _, _) = load_order_lem b.order_pool a seen in cc
]

free-apart :
    (b : OrderBook) (bids asks : List Row) (free : List ℕ) (j k : ℕ)
    → IsBook b bids asks free
    → has j free ≡ true
    → AtLevel k bids asks
    → (j == k) ≡ false
free-apart b bids asks free j k is gone rests =
    let live = AtLevel-not_free b bids asks free k is rests in
    elim (Bool-cases (j == k)) [ inr other ↦ other | inl same ↦ let e : j ≡ k = ground arith in cc ]

module _ (d : Draws) (picks : Picks d) (b : OrderBook) (bids asks : List Row)
    (free tracked : List ℕ) (is : IsBook b bids asks free) (distinct : Distinct tracked) where
  -- The order that a cancellation picks.
  picked :
      (0 < length tracked)
      → (k : ℕ) × (get_elem? tracked (d.index_to_cancel (length tracked)) ≡ some k)
  picked more = get_elem?-some tracked _ (picks (length tracked) more)

  -- The cancellation of an order that rests.
  cancel_at-resting :
      (i k : ℕ)
      → get_elem? tracked i ≡ some k
      → AtLevel k bids asks
      → Returns
          (λ kept b'. (kept ≡ erase_at i tracked) × Struck b' bids asks free k)
          (cancel_at i tracked b)
  unfolding cancel_at
  cancel_at-resting i k at rests =
      let (o, seen, more) = AtLevel-Alive b bids asks free k is rests in
      let big : ltb 0 o.size ≡ true = ground (arith, more) in
      rw (cancel_at, at, size_at-view b k o seen, big)
        (Returns-bind (cancel_order-Struck b bids asks free k is rests)
          λ _ b' struck. returns (refl, struck))

  -- The cancellation of an order that no longer lives.
  cancel_at-free :
      (i k : ℕ)
      → get_elem? tracked i ≡ some k
      → size_at k b ≡ none
      → (cancel_at i tracked >>= clean_up) b ≡ none
  unfolding cancel_at
  cancel_at-free i k at dead = rw (cancel_at, at, dead) refl

  -- The end of a round whose orders all rest.
  pub tail_rests :
      ((a : ℕ) → has a tracked ≡ true → AtLevel a bids asks)
      → Returns (λ kept b'. Driving b' kept) (round_tail d tracked b)
  tail_rests at = elim (tail-cases d b tracked) [
    | inl quiet ↦
        rw (quiet, clean_up-alive b tracked (each-alive b bids asks free tracked is at))
          (returns (record {
            bids = bids;
            asks = asks;
            free = free;
            is = is;
            distinct = distinct;
            at = at;
          }))
    | inr (more, cancels) ↦
        let (k, pick) = picked more in
        rw cancels (
          Returns-bind (cancel_at-resting _ k pick (at k (get_elem?-has tracked _ k pick)))
            λ kept b' (e, (bids', asks', is', stays, _)).
              let rests : (a : ℕ) → has a kept ≡ true → AtLevel a bids' asks' = λ a h.
                stays a (ground (arith, h, ap (has a) e, has-erase_at a tracked _ k distinct pick))
                  (at a
                    (ground (arith, h, ap (has a) e, has-erase_at a tracked _ k distinct pick))) in
              rw (clean_up-alive b' kept (each-alive b' bids' asks' (k ∷ free) kept is' rests)) (
                returns (record {
                  bids = bids';
                  asks = asks';
                  free = k ∷ free;
                  is = is';
                  distinct = subst Distinct (sym e) (Distinct-erase_at tracked _ k distinct pick);
                  at = rests;
                })))
  ]

  -- The end of a round with an order that no longer lives.
  pub tail_dangles :
      (j : ℕ)
      → has j tracked ≡ true
      → has j free ≡ true
      → ((a : ℕ) → has a tracked ≡ true → AtLevel a bids asks ⊎ (has a free ≡ true))
      → round_tail d tracked b ≡ none
  tail_dangles j tracks gone each =
      let dead = load_order-free b.order_pool j free is.pool gone in
      elim (tail-cases d b tracked) [
        | inl quiet ↦ quiet ∙ clean_up-free b j tracked dead tracks
        | inr (more, cancels) ↦
            let (k, pick) = picked more in
            cancels ∙ (elim (each k (get_elem?-has tracked _ k pick)) [
              | inr closed ↦
                  let no_size =
                    size_at-free b k (load_order-free b.order_pool k free is.pool closed) in
                  cancel_at-free _ k pick no_size
              | inl rests ↦
                  Returns-fault _ (cancel_at-resting _ k pick rests)
                    λ kept b' (e, (bids', asks', is', stays, _)).
                      let other : (j == k) ≡ false =
                        free-apart b bids asks free j k is gone rests in
                      clean_up-free b' j kept
                        (load_order-free b'.order_pool j (k ∷ free) is'.pool (ground (arith, gone)))
                        (ground (
                          arith,
                          tracks,
                          other,
                          ap (has j) e,
                          has-erase_at j tracked _ k distinct pick,
                        ))
            ])
      ]
