-- ===== src/Book/Levels.antt =====
-- The use that project/order_book.cpp makes of `std::map<uint64_t, …>`: a list of entries in
-- ascending order of keys.
use cpp_trading_exchange.Base.{ℕ, Option, none, some, List, [], ◌∷◌, ltb, ◌==◌, if◌then◌else◌}

module _ {V : Type 0} where
  unfoldable pub begin : List (ℕ × V) → Option (ℕ × V)
  begin [] = none
  begin (x ∷ xs) = some x

  unfoldable pub rbegin : List (ℕ × V) → Option (ℕ × V)
  rbegin [] = none
  rbegin (x ∷ []) = some x
  rbegin (x ∷ y ∷ xs) = rbegin (y ∷ xs)

  unfoldable pub find : ℕ → List (ℕ × V) → Option V
  find k [] = none
  find k ((j, v) ∷ xs) = if j == k then some v else find k xs

  unfoldable pub erase : ℕ → List (ℕ × V) → List (ℕ × V)
  erase k [] = []
  erase k ((j, v) ∷ xs) = if j == k then erase k xs else (j, v) ∷ erase k xs

  -- A write through the reference to the value at a key that is there.
  unfoldable pub put : ℕ → V → List (ℕ × V) → List (ℕ × V)
  put k w [] = []
  put k w ((j, v) ∷ xs) = (j, if j == k then w else v) ∷ put k w xs

  -- `operator[]`: the entry is made, with the value `d`, if there is none.
  unfoldable pub touch : ℕ → V → List (ℕ × V) → List (ℕ × V)
  touch k d [] = (k, d) ∷ []
  touch k d ((j, v) ∷ xs) =
      if ltb k j
      then (k, d) ∷ (j, v) ∷ xs
      else (if j == k then (j, v) ∷ xs else (j, v) ∷ touch k d xs)
