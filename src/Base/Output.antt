-- ===== src/Base/Output.antt =====
-- Output as the sequence of what a program writes. How a number is written, and how a field is filled up
-- to its width, is left to the library.
use cpp_trading_exchange.Base.{ℕ}
use Prim.Native.String.{String}

-- `<< s`, `<< n`, `%-*s` and `%*llu`, the widths as numbers.
pub data Piece : Type 0 where
  text : String → Piece
  number : ℕ → Piece
  left_in : ℕ → String → Piece
  right_in : ℕ → ℕ → Piece
