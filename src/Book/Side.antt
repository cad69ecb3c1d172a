-- ===== src/Book/Side.antt =====
-- One side of the book in memory: the levels of the map, and the orders at each.
use cpp_trading_exchange.Base.{
  ℕ, ◌<◌, ◌≡◌, ◌≢◌, sym, refl, false, true, inl, inr, ◌⊎◌, Bool, Bool-cases, some, List, [], ◌∷◌,
  arith, ◌==◌, length, has, has-append,
}
use cpp_trading_exchange.Order.{Order}
use cpp_trading_exchange.Order.Memory.{Memory, view}
use cpp_trading_exchange.Order.Access.{Frame}
use cpp_trading_exchange.Book.{PriceLevels}
use cpp_trading_exchange.Book.Rows.{Resting, slots}
use cpp_trading_exchange.Book.Level.{Live, IsLevel, IsLevel-Frame}
use cpp_trading_exchange.Book.Sweep.{Row, all_slots}

-- The orders of a level have its price and its side, and are not used up.
abbrev pub Placed : Bool → ℕ → List Resting → Type 0
Placed s k [] = Unit
Placed s k ((i, o) ∷ xs) = (o.price ≡ k) × (o.is_buy_side ≡ s) × (0 < o.size) × Placed s k xs

abbrev pub keys : {V : Type 0} → List (ℕ × V) → List ℕ
keys [] = []
keys ((k, v) ∷ xs) = k ∷ keys xs

-- Levels have distinct prices, are not empty, and hold orders of their price and side.
abbrev pub WellPlaced : Bool → List Row → Type 0
WellPlaced s [] = Unit
WellPlaced s ((k, xs) ∷ rs) =
    (has k (keys rs) ≡ false) × (0 < length xs) × Placed s k xs × WellPlaced s rs

-- The map of levels holds the rows, in the same order.
abbrev pub IsSide : Memory → PriceLevels → List Row → Type 0
IsSide m [] [] = Unit
IsSide m [] (r ∷ rs) = ⊥
IsSide m (l ∷ ls) [] = ⊥
IsSide m ((p, q) ∷ ls) ((k, xs) ∷ rs) = (p ≡ k) × IsLevel m q xs × IsSide m ls rs

-- What an order at a level shows.
pub Live-has :
    (m : Memory) (s : Bool) (k a : ℕ) (xs : List Resting)
    → Live m xs
    → Placed s k xs
    → has a (slots xs) ≡ true
    → (o : Order) × (view m a ≡ some o) × (o.price ≡ k) × (o.is_buy_side ≡ s)
Live-has m s k a [] l p h = cc
Live-has m s k a ((i, o) ∷ xs) l p h = elim (Bool-cases (a == i)) [
  | inl hit ↦ let e : a ≡ i = ground arith in (o, rw e l.0, p.0, p.1)
  | inr miss ↦ Live-has m s k a xs l.1 p.3 (ground arith)
]

-- Levels of other prices or of the other side share no slot.
pub Placed-apart :
    (m : Memory) (s t : Bool) (k j : ℕ) (xs ys : List Resting)
    → Live m xs
    → Placed s k xs
    → Live m ys
    → Placed t j ys
    → (k ≢ j) ⊎ (s ≢ t)
    → (a : ℕ) → has a (slots xs) ≡ true
    → has a (slots ys) ≡ false
Placed-apart m s t k j xs ys lx px ly py other a h = elim (Bool-cases (has a (slots ys))) [
  | inr miss ↦ miss
  | inl hit ↦
      let (o, e, p, b) = Live-has m s k a xs lx px h in
      let (o', e', p', b') = Live-has m t j a ys ly py hit in
      elim other [ inl ne ↦ absurd (ne (ground arith)) | inr ne ↦ absurd (ne (ground arith)) ]
]

-- A side outlives changes at slots that are none of its own.
pub IsSide-Frame :
    (m m' : Memory) (ys : List ℕ) (ls : PriceLevels) (rs : List Row)
    → Frame ys m m'
    → ((a : ℕ) → has a (all_slots rs) ≡ true → has a ys ≡ false)
    → IsSide m ls rs
    → IsSide m' ls rs
unfolding all_slots
IsSide-Frame m m' ys [] [] f apart is = tt
IsSide-Frame m m' ys [] (r ∷ rs) f apart is = is
IsSide-Frame m m' ys (l ∷ ls) [] f apart is = is
IsSide-Frame m m' ys ((p, q) ∷ ls) ((k, xs) ∷ rs) f apart is = (
  is.0,
  IsLevel-Frame ys xs f (λ a h. apart a (ground (arith, has-append a (slots xs) (all_slots rs))))
      is.1,
  IsSide-Frame m m' ys ls rs f
      (λ a h. apart a (ground (arith, has-append a (slots xs) (all_slots rs)))) is.2,
)

-- A level shares no slot with the levels of other prices, or of the other side.
pub level-apart :
    (m : Memory) (s t : Bool) (k : ℕ) (xs : List Resting) (ls : PriceLevels) (rs : List Row)
    → Live m xs
    → Placed s k xs
    → IsSide m ls rs
    → WellPlaced t rs
    → (has k (keys rs) ≡ false) ⊎ (s ≢ t)
    → (a : ℕ) → has a (all_slots rs) ≡ true
    → has a (slots xs) ≡ false
unfolding all_slots
level-apart m s t k xs [] [] l p is w other a h = cc
level-apart m s t k xs [] (r ∷ rs) l p is w other a h = elim is [ ]
level-apart m s t k xs (l' ∷ ls) [] l p is w other a h = elim is [ ]
level-apart m s t k xs ((_, q) ∷ ls) ((j, ys) ∷ rs) l p is w other a h =
    elim (Bool-cases (has a (slots ys))) [
      | inl hit ↦ Placed-apart m t s j k ys xs (is.1).live w.2 l p (flip other) a hit
      | inr miss ↦
          level-apart m s t k xs ls rs l p is.2 w.3 (later other) a
            (ground (arith, has-append a (slots ys) (all_slots rs)))
    ]
  where
    flip : (has k (j ∷ keys rs) ≡ false) ⊎ (s ≢ t) → (j ≢ k) ⊎ (t ≢ s)
    flip (inl miss) = inl λ e. ground arith
    flip (inr ne) = inr λ e. ne (sym e)

    later : (has k (j ∷ keys rs) ≡ false) ⊎ (s ≢ t) → (has k (keys rs) ≡ false) ⊎ (s ≢ t)
    later (inl miss) = inl (ground arith)
    later (inr ne) = inr ne

pub keys-same : (m : Memory) (ls : PriceLevels) (rs : List Row) → IsSide m ls rs → keys ls ≡ keys rs
keys-same m [] [] is = refl
keys-same m [] (r ∷ rs) is = elim is [ ]
keys-same m (l ∷ ls) [] is = elim is [ ]
keys-same m ((p, q) ∷ ls) ((k, xs) ∷ rs) is = rw (is.0, keys-same m ls rs is.2)
