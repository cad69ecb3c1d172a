-- ===== src/Simulation/Dangling.antt =====
-- The pointers that project/entrypoint.cpp keeps to orders which a match has used up.
use cpp_trading_exchange.Base.{
  ℕ, ◌<◌, ◌≡◌, ◌⊎◌, ◌∙◌, refl, subst, inl, inr, Bool, Bool-cases, true, false, Option, Option-cases,
  none, some, List, [], ◌∷◌, ◌++◌, arith, ltb, ◌==◌, if◌then◌else◌, has, has-append, get_elem?,
}
use cpp_trading_exchange.Base.Cmd.{Cmd, Returns, returns, and_then}
use cpp_trading_exchange.Pool.{object_at}
use cpp_trading_exchange.Pool.FreeList.{IsPool}
use cpp_trading_exchange.Order.{Order, OrderType, limit, market}
use cpp_trading_exchange.Order.Memory.{Memory, order_overlay}
use cpp_trading_exchange.Order.Access.{load_order}
use cpp_trading_exchange.Book.{OrderBook, uint32, in_pool}
use cpp_trading_exchange.Book.Rows.{release}
use cpp_trading_exchange.Book.Sweep.{Row}
use cpp_trading_exchange.Book.Match.{IsBook}
use cpp_trading_exchange.Book.Add.{crossed, Entered, add_order_lem}
use cpp_trading_exchange.Simulation.{Draws, size_at, track, clean_up, round_on_book}

-- The type that a round draws.
abbrev pub drawn_type : Draws → OrderType
drawn_type d = if d.type_dis == 0 then limit else market

pub has-release :
    (j : ℕ) (closed free : List ℕ) → has j closed ≡ true → has j (release closed free) ≡ true
has-release j closed free h = kept closed free (inl h)
  where
    kept :
        (closed free : List ℕ)
        → (has j closed ≡ true) ⊎ (has j free ≡ true)
        → has j (release closed free) ≡ true
    kept [] free (inl h) = cc
    kept [] free (inr h) = h
    kept (c ∷ closed) free (inl h) = elim (Bool-cases (j == c)) [
      | inl hit ↦ kept closed (c ∷ free) (inr (rw hit))
      | inr miss ↦ kept closed (c ∷ free) (inl (rw miss at h))
    ]
    kept (c ∷ closed) free (inr h) = kept closed (c ∷ free) (inr (ground (arith, h)))

pub load_order-free :
    (m : Memory) (j : ℕ) (free : List ℕ)
    → IsPool order_overlay m free
    → has j free ≡ true
    → load_order j m ≡ none
unfolding load_order object_at
load_order-free m j free is h = elim (Option-cases (get_elem? m.store j)) [
  | inl gone ↦ rw (load_order, object_at, gone) refl
  | inr (e, at) ↦
      let flag : e.is_free_or_in_use ≡ true = is.flags j e at ∙ h in
      rw (load_order, object_at, at, flag) refl
]

pub size_at-free : (b : OrderBook) (j : ℕ) → load_order j b.order_pool ≡ none → size_at j b ≡ none
unfolding size_at in_pool
size_at-free b j h = rw (in_pool, h) refl

-- Reading a size changes nothing.
size_at-cases :
    (b : OrderBook) (p : ℕ) → (size_at p b ≡ none) ⊎ ((size : ℕ) × (size_at p b ≡ some (size, b)))
unfolding size_at in_pool load_order
size_at-cases b p = elim (Option-cases (object_at b.order_pool p)) [
  | inl gone ↦ inl (rw (in_pool, load_order, gone) refl)
  | inr (o, at) ↦ inr (o.size, rw (in_pool, load_order, at) refl)
]

-- A pass over pointers of which one dangles.
pub clean_up-free :
    (b : OrderBook) (j : ℕ) (orders : List ℕ)
    → load_order j b.order_pool ≡ none
    → has j orders ≡ true
    → clean_up orders b ≡ none
unfolding clean_up
clean_up-free b j [] gone h = cc
clean_up-free b j (p ∷ orders) gone h = elim (Bool-cases (j == p)) [
  | inl hit ↦
      let same : j ≡ p = ground arith in
      let dead = subst (λ q. size_at q b ≡ none) same (size_at-free b j gone) in
      rw (clean_up, dead) refl
  | inr miss ↦
      let later = clean_up-free b j orders gone (rw miss at h) in
      elim (size_at-cases b p) [
        | inl dead ↦ rw (clean_up, dead) refl
        | inr (size, run) ↦ rw (clean_up, run, later) refl
      ]
]

track-keeps :
    (b : OrderBook) (i j : ℕ) (orders : List ℕ)
    → has j orders ≡ true
    → (track (some i) orders b ≡ none)
      ⊎ ((kept : List ℕ) × (track (some i) orders b ≡ some (kept, b)) × (has j kept ≡ true))
unfolding track
track-keeps b i j orders h = elim (size_at-cases b i) [
  | inl dead ↦ inl (rw (track, dead) refl)
  | inr (size, run) ↦ elim (Bool-cases (ltb 0 size)) [
    | inl more ↦
        inr (
          orders ++ i ∷ [],
          rw (track, run, more) refl,
          ground (arith, has-append j orders (i ∷ [])),
        )
    | inr used ↦ inr (orders, rw (track, run, used) refl, h)
  ]
]

Entered-free :
    (left s : Bool) (i : ℕ) (o : Order) (b : OrderBook) (bids asks : List Row) (free : List ℕ)
    → Entered left s i o b bids asks free
    → IsPool order_overlay b.order_pool free
Entered-free true true i o b bids asks free is = is.pool
Entered-free true false i o b bids asks free is = is.pool
Entered-free false s i o b bids asks free is = is.book.pool

pub Returns-fault :
    {M A B : Type 0} {P : A → M → Type 0} {r : Option (A × M)} (k : A → Cmd M B)
    → Returns P r
    → ((a : A) (m : M) → P a m → k a m ≡ none)
    → and_then r k ≡ none
Returns-fault k (returns p) next = next _ _ p

-- A round of the driver that cancels nothing, with an order of a size below 2^32 entering a well-formed
-- book with a free slot, is undefined as soon as the match uses up an order that the driver tracks: the
-- size of that order is read after its slot has gone back to the pool.
pub round-dangling :
    (d : Draws) (order_id size price : ℕ) (orders : List ℕ) (b : OrderBook) (bids asks : List Row)
    (i : ℕ) (free : List ℕ) (j : ℕ)
    → size < uint32
    → IsBook b bids asks (i ∷ free)
    → d.cancels ≡ false
    → has j (crossed (d.side_dis == 0) (drawn_type d) price size bids asks).closed ≡ true
    → has j orders ≡ true
    → round_on_book d order_id size price orders b ≡ none
unfolding round_on_book
round-dangling d order_id size price orders b bids asks i free j small is quiet used tracked =
    let s = d.side_dis == 0 in
    Returns-fault _
      (add_order_lem order_id d.client_id size price s (drawn_type d) b bids asks i free small is)
      λ p b1 (ep, entered, _).
        let pool = Entered-free _ s i _ b1 _ _ _ entered in
        let gone = load_order-free b1.order_pool j _ pool (has-release j _ free used) in
        rw (ep, quiet)
          (elim (track-keeps b1 i j orders tracked) [
            | inl dead ↦ rw dead refl
            | inr ([], run, still) ↦ cc
            | inr (x ∷ kept, run, still) ↦ rw run (clean_up-free b1 j (x ∷ kept) gone still)
          ])
