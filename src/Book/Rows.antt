-- ===== src/Book/Rows.antt =====
-- The matching rule on plain lists: what project/order_book.cpp promises of one price level. A
-- resting order is its slot and what it shows besides its node, oldest first.
use cpp_trading_exchange.Base.{ℕ, ◌+◌, ◌-◌, List, [], ◌∷◌, ltb, if◌then◌else◌}
use cpp_trading_exchange.Order.{Order}

abbrev pub Resting : Type 0
Resting = ℕ × Order

abbrev pub slots : List Resting → List ℕ
slots [] = []
slots ((i, o) ∷ xs) = i ∷ slots xs

-- The quantity on offer.
unfoldable pub volume : List Resting → ℕ
volume [] = 0
volume ((i, o) ∷ xs) = o.size + volume xs

-- What a match leaves of a level: the orders that stay, the quantity matched so far, and the slots of
-- the orders that were used up, first to last.
pub record Matched : Type 0 where
  pub rows : List Resting
  pub total : ℕ
  pub closed : List ℕ

-- First in, first out: the oldest order gives what it has, up to the quantity that is wanted.
unfoldable pub match_row : ℕ → List Resting → ℕ → Matched
match_row size [] total = record { rows = []; total = total; closed = [] }
match_row size ((i, o) ∷ xs) total =
    let rest = match_row size xs (total + o.size) in
    if ltb total size
    then (if ltb (size - total) o.size
        then record {
          rows = (i, record o { size = o.size - (size - total) }) ∷ xs;
          total = size;
          closed = [];
        }
        else record rest { closed = i ∷ rest.closed })
    else record { rows = (i, o) ∷ xs; total = total; closed = [] }

-- The slots of closed orders go back to the front of the free list, one by one.
abbrev pub release : List ℕ → List ℕ → List ℕ
release [] free = free
release (i ∷ is) free = release is (i ∷ free)
