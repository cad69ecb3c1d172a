-- ===== src/Bench/Printing.antt =====
-- What the two benchmarks of pools print for their three sizes.
use cpp_trading_exchange.Base.{ℕ, ◌<◌, ◌≡◌, ◌∙◌, refl, List, ◌++◌, arith}
use cpp_trading_exchange.Base.Cmd.{Cmd, pure, ◌>>=◌, Returns, returns, Returns-bind}
use cpp_trading_exchange.Bench.{Bench}
use cpp_trading_exchange.Bench.Heap.{Heap, object_of}
use cpp_trading_exchange.Bench.Cold.{Timings}
use Prim.Native.String.{String}
use cpp_trading_exchange.Base.Output.{Piece}
use cpp_trading_exchange.Bench.Report.{results, read_sink}

-- No object of the heap has been made, changed or lost.
abbrev pub SameHeap : Bench Heap → Bench Heap → Type 0
SameHeap b b' = (x : ℕ) → object_of b'.memory x ≡ object_of b.memory x

pub SameHeap-then : (b b1 b2 : Bench Heap) → SameHeap b b1 → SameHeap b1 b2 → SameHeap b b2
SameHeap-then b b1 b2 p q x = q x ∙ p x

-- Three reports with some timings, from the smallest size up, and the notes with the final sink.
abbrev pub Reports : String → (ℕ → List Piece) → List Piece → Bench Heap → Type 0
Reports title notes output b' =
    (small : Timings × Timings × Timings) × (medium : Timings × Timings × Timings)
    × (large : Timings × Timings × Timings) × (output
        ≡ results title 100 small
          ++ results title 100000 medium
          ++ results title 1000000 large
          ++ notes b'.sink)

-- Three prints in a row, whatever they are.
abbrev pub print_all :
    (ℕ → Cmd (Bench Heap) (List Piece)) → (ℕ → List Piece) → Cmd (Bench Heap) (List Piece)
print_all print notes = do
  small ← print 100
  medium ← print 100000
  large ← print 1000000
  sink ← read_sink
  pure (small ++ medium ++ large ++ notes sink)

abbrev pub Prints : String → (ℕ → Cmd (Bench Heap) (List Piece)) → Type 0
Prints title print =
    (n : ℕ) (b : Bench Heap)
    → 0 < n
    → Returns
        (λ output b'.
          SameHeap b b' × (t : Timings × Timings × Timings) × (output ≡ results title n t))
        (print n b)

pub print_all_lem :
    (title : String) (print : ℕ → Cmd (Bench Heap) (List Piece)) (notes : ℕ → List Piece)
    (b : Bench Heap)
    → Prints title print
    → Returns (λ output b'. SameHeap b b' × Reports title notes output b') (print_all print notes b)
print_all_lem title print notes b prints =
    Returns-bind (prints 100 b (omega arith)) λ small b1 (h1, t1, e1).
      Returns-bind (prints 100000 b1 (omega arith)) λ medium b2 (h2, t2, e2).
        Returns-bind (prints 1000000 b2 (omega arith)) λ large b3 (h3, t3, e3). returns (
          SameHeap-then b b1 b3 h1 (SameHeap-then b1 b2 b3 h2 h3),
          (t1, t2, t3, rw (e1, e2, e3) refl),
        )
