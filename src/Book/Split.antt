-- ===== src/Book/Split.antt =====
-- A side of the book around one of its levels, and what is left of it when an order leaves that level.
use cpp_trading_exchange.Base.{
  ℕ, ◌+◌, ◌≡◌, ap, refl, Bool, false, ◌||◌, some, List, [], ◌∷◌, ◌++◌, arith, ==-refl, length,
  length-append, has, has-append, Distinct,
}
use cpp_trading_exchange.Order.{Order}
use cpp_trading_exchange.Order.Memory.{Memory, view}
use cpp_trading_exchange.Book.{PriceLevels}
use cpp_trading_exchange.Book.Levels.{erase}
use cpp_trading_exchange.Book.Rows.{Resting, slots}
use cpp_trading_exchange.Book.Level.{Live}
use cpp_trading_exchange.Book.Sweep.{Row, all_slots}
use cpp_trading_exchange.Book.Side.{Placed, keys, WellPlaced, IsSide}
use cpp_trading_exchange.Book.Sorted.{Above, Ascending, AllPlaced}
use cpp_trading_exchange.Book.RestRow.{has-keys, slots-append}

-- A level, unless it is empty.
abbrev pub level_row : ℕ → List Resting → List Row
level_row k [] = []
level_row k (x ∷ xs) = (k, x ∷ xs) ∷ []

pub Apart-keys :
    (s : Bool) (k : ℕ) (below : List Row) (xs : List Resting) (above : List Row)
    → WellPlaced s (below ++ (k, xs) ∷ above)
    → (has k (keys below) ≡ false) × (has k (keys above) ≡ false)
Apart-keys s k [] xs above w = (refl, w.0)
Apart-keys s k ((j, ys) ∷ below) xs above w =
    let (l, u) = Apart-keys s k below xs above w.3 in
    (ground (arith, has-keys j below ((k, xs) ∷ above)), u)

pub IsSide-split :
    (m : Memory) (ls : PriceLevels) (rs ss : List Row)
    → IsSide m ls (rs ++ ss)
    → (lower : PriceLevels) × (upper : PriceLevels) × (ls ≡ lower ++ upper)
      × IsSide m lower rs
      × IsSide m upper ss
IsSide-split m ls [] ss is = ([], ls, refl, tt, is)
IsSide-split m [] (r ∷ rs) ss is = elim is [ ]
IsSide-split m (l ∷ ls) (r ∷ rs) ss is =
    let (lower, upper, e, p, q) = IsSide-split m ls rs ss is.2 in
    (l ∷ lower, upper, ap (◌∷◌ l) e, (is.0, is.1, p), q)

erase-none : {V : Type 0} (k : ℕ) (xs : List (ℕ × V)) → has k (keys xs) ≡ false → erase k xs ≡ xs
unfolding erase
erase-none k [] h = refl
erase-none k ((j, v) ∷ xs) h = ground (arith, erase-none k xs)

pub erase-middle :
    {V : Type 0} (k : ℕ) (v : V) (xs ys : List (ℕ × V))
    → has k (keys xs) ≡ false
    → has k (keys ys) ≡ false
    → erase k (xs ++ (k, v) ∷ ys) ≡ xs ++ ys
unfolding erase
erase-middle k v [] ys h g = rw (==-refl k, erase-none k ys g)
erase-middle k v ((j, u) ∷ xs) ys h g = ground (arith, erase-middle k v xs ys)

pub Live-drop :
    (m : Memory) (xs : List Resting) (i : ℕ) (o : Order) (ys : List Resting)
    → Live m (xs ++ (i, o) ∷ ys)
    → (view m i ≡ some o) × Live m (xs ++ ys)
Live-drop m [] i o ys l = (l.0, l.1)
Live-drop m (x ∷ xs) i o ys l = let (e, rest) = Live-drop m xs i o ys l.1 in (e, (l.0, rest))

pub Placed-drop :
    (s : Bool) (k : ℕ) (xs : List Resting) (x : Resting) (ys : List Resting)
    → Placed s k (xs ++ x ∷ ys)
    → Placed s k (xs ++ ys)
Placed-drop s k [] x ys p = p.3
Placed-drop s k (z ∷ xs) x ys p = (p.0, p.1, p.2, Placed-drop s k xs x ys p.3)

pub has-drop : (i : ℕ) (xs ys : List ℕ) → Distinct (xs ++ i ∷ ys) → has i (xs ++ ys) ≡ false
has-drop i [] ys d = d.0
has-drop i (x ∷ xs) ys d = ground (arith, has-append x xs (i ∷ ys), has-drop i xs ys d.1)

Above-drop :
    (j k : ℕ) (below : List Row) (ws zs : List Resting) (above : List Row)
    → Above j (keys (below ++ (k, ws) ∷ above))
    → Above j (keys (below ++ (level_row k zs ++ above)))
Above-drop j k [] ws [] above a = a.1
Above-drop j k [] ws (z ∷ zs) above a = a
Above-drop j k (r ∷ below) ws zs above a = (a.0, Above-drop j k below ws zs above a.1)

pub Ascending-drop :
    (k : ℕ) (below : List Row) (ws zs : List Resting) (above : List Row)
    → Ascending (keys (below ++ (k, ws) ∷ above))
    → Ascending (keys (below ++ (level_row k zs ++ above)))
Ascending-drop k [] ws [] above a = a.1
Ascending-drop k [] ws (z ∷ zs) above a = a
Ascending-drop k ((j, vs) ∷ below) ws zs above a =
    (Above-drop j k below ws zs above a.0, Ascending-drop k below ws zs above a.1)

pub AllPlaced-drop :
    (s : Bool) (k : ℕ) (below : List Row) (ws zs : List Resting) (above : List Row)
    → AllPlaced s (below ++ (k, ws) ∷ above)
    → Placed s k zs
    → AllPlaced s (below ++ (level_row k zs ++ above))
AllPlaced-drop s k [] ws [] above a p = a.2
AllPlaced-drop s k [] ws (z ∷ zs) above a p = (omega arith, p, a.2)
AllPlaced-drop s k (r ∷ below) ws zs above a p =
    (a.0, a.1, AllPlaced-drop s k below ws zs above a.2 p)

-- The slots of a side with a level of the given orders, or with none if there are no orders.
pub has-level_row :
    (a k : ℕ) (below : List Row) (zs : List Resting) (above : List Row)
    → has a (all_slots (below ++ (level_row k zs ++ above)))
      ≡ (has a (all_slots below) || (has a (slots zs) || has a (all_slots above)))
unfolding all_slots
has-level_row a k [] [] above = refl
has-level_row a k [] (z ∷ zs) above = has-append a (slots (z ∷ zs)) (all_slots above)
has-level_row a k ((j, xs) ∷ below) zs above = ground (
  arith,
  has-append a (slots xs) (all_slots below),
  has-append a (slots xs) (all_slots (below ++ (level_row k zs ++ above))),
  has-level_row a k below zs above,
)

pub has-level :
    (a k : ℕ) (below : List Row) (zs : List Resting) (above : List Row)
    → has a (all_slots (below ++ (k, zs) ∷ above))
      ≡ (has a (all_slots below) || (has a (slots zs) || has a (all_slots above)))
unfolding all_slots
has-level a k [] zs above = has-append a (slots zs) (all_slots above)
has-level a k ((j, xs) ∷ below) zs above = ground (
  arith,
  has-append a (slots xs) (all_slots below),
  has-append a (slots xs) (all_slots (below ++ (k, zs) ∷ above)),
  has-level a k below zs above,
)

all_slots-level_row :
    (k : ℕ) (zs : List Resting) (above : List Row)
    → all_slots (level_row k zs ++ above) ≡ slots zs ++ all_slots above
unfolding all_slots
all_slots-level_row k [] above = refl
all_slots-level_row k (z ∷ zs) above = refl

pub length-level_row :
    (k : ℕ) (below : List Row) (xs : List Resting) (i : ℕ) (o : Order) (ys : List Resting)
    (above : List Row)
    → length (all_slots (below ++ (k, xs ++ (i, o) ∷ ys) ∷ above))
      ≡ length (all_slots (below ++ (level_row k (xs ++ ys) ++ above))) + 1
unfolding all_slots
length-level_row k [] xs i o ys above =
    rw (all_slots-level_row k (xs ++ ys) above, slots-append xs ((i, o) ∷ ys), slots-append xs ys)
      (omega (
        arith,
        length-append (slots xs ++ i ∷ slots ys) (all_slots above),
        length-append (slots xs ++ slots ys) (all_slots above),
        length-append (slots xs) (i ∷ slots ys),
        length-append (slots xs) (slots ys),
      ))
length-level_row k ((j, ws) ∷ below) xs i o ys above = omega (
  arith,
  length-append (slots ws) (all_slots (below ++ (k, xs ++ (i, o) ∷ ys) ∷ above)),
  length-append (slots ws) (all_slots (below ++ (level_row k (xs ++ ys) ++ above))),
  length-level_row k below xs i o ys above,
)
