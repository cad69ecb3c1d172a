-- ===== src/Book/Priority.antt =====
-- What the matching rules promise: how much is matched, that no quantity is lost, and that orders are
-- used up in the order of price and time.
use cpp_trading_exchange.Base.{
  ℕ, ◌+◌, ◌≤◌, ◌≡◌, ◌∙◌, ap, refl, inl, inr, List, [], ◌∷◌, ◌++◌, Bool, false, arith,
}
use Prim.Native.Nat.{min}
use mathlib.Core.List.{append_assoc, append-nil}
use cpp_trading_exchange.Book.Rows.{Resting, match_row, slots, volume}
use cpp_trading_exchange.Book.Sweep.{Row, is_nil, sweep, sweep_cases, all_slots, depth, reachable}

pub match_row-total :
    (size : ℕ) (xs : List Resting) (total : ℕ)
    → total ≤ size
    → (match_row size xs total).total ≡ min size (total + volume xs)
unfolding match_row volume
match_row-total size [] total h = omega arith
match_row-total size ((i, o) ∷ xs) total h =
    ground (arith, match_row-total size xs (total + o.size))

pub match_row-volume :
    (size : ℕ) (xs : List Resting) (total : ℕ)
    → let r = match_row size xs total in volume r.rows + r.total ≡ volume xs + total
unfolding match_row volume
match_row-volume size [] total = refl
match_row-volume size ((i, o) ∷ xs) total =
    ground (arith, match_row-volume size xs (total + o.size))

pub match_row-slots :
    (size : ℕ) (xs : List Resting) (total : ℕ)
    → let r = match_row size xs total in slots xs ≡ r.closed ++ slots r.rows
unfolding match_row
match_row-slots size [] total = refl
match_row-slots size ((i, o) ∷ xs) total = ground (arith, match_row-slots size xs (total + o.size))

-- An order that is not filled has used up all that it met.
pub match_row-unfilled :
    (size : ℕ) (xs : List Resting) (total : ℕ)
    → is_nil (match_row size xs total).rows ≡ false
    → total ≤ size
    → (match_row size xs total).total ≡ size
unfolding match_row
match_row-unfilled size [] total h k = cc
match_row-unfilled size ((i, o) ∷ xs) total h k =
    ground (arith, match_row-unfilled size xs (total + o.size))

module _ (beyond : ℕ → Bool) (size : ℕ) where
  -- No quantity is lost or made up: what the side has less afterwards is what was matched.
  pub sweep-depth :
      (rs : List Row) (total : ℕ)
      → let s = sweep beyond size rs total in depth s.rows + s.total ≡ depth rs + total
  unfolding sweep depth volume
  sweep-depth [] total = refl
  sweep-depth ((k, xs) ∷ rs) total =
      sweep_cases (λ s. depth s.rows + s.total ≡ volume xs + depth rs + total) beyond size k xs rs
        total (λ _. refl)
        (λ go near e.
          let none_left : volume (match_row size xs total).rows ≡ 0 = rw e in
          omega
            (arith, match_row-volume size xs total, sweep-depth rs (match_row size xs total).total))
        (λ go near e. omega (arith, match_row-volume size xs total))

  -- The slots of the side, best price first and oldest first within a price, split into those of the
  -- orders used up and those that stay: orders are used up in that order, and none is skipped.
  pub sweep-slots :
      (rs : List Row) (total : ℕ)
      → let s = sweep beyond size rs total in all_slots rs ≡ s.closed ++ all_slots s.rows
  unfolding sweep all_slots
  sweep-slots [] total = refl
  sweep-slots ((k, xs) ∷ rs) total =
      sweep_cases (λ s. slots xs ++ all_slots rs ≡ s.closed ++ all_slots s.rows) beyond size k xs rs
        total (λ _. refl)
        (λ go near e.
          let r = match_row size xs total in
          let all : slots xs ≡ r.closed ++ [] =
            match_row-slots size xs total ∙ ap (λ ys. r.closed ++ slots ys) e in
          rw (all, append-nil, append_assoc) (ap (◌++◌ r.closed) (sweep-slots rs r.total)))
        (λ go near e. rw (match_row-slots size xs total, append_assoc))

  -- The total reaches the quantity wanted, or all that the limit lets it reach.
  pub sweep-total :
      (rs : List Row) (total : ℕ)
      → total ≤ size
      → (sweep beyond size rs total).total ≡ min size (total + depth (reachable beyond rs))
  unfolding sweep depth reachable volume
  sweep-total [] total h = omega arith
  sweep-total ((k, xs) ∷ rs) total h =
      sweep_cases (λ s. s.total ≡ min size (total + depth (reachable beyond ((k, xs) ∷ rs)))) beyond
        size k xs rs total
        (λ stop. elim stop [ inl full ↦ ground arith | inr far ↦ rw far (omega arith) ])
        (λ go near e.
          let none_left : volume (match_row size xs total).rows ≡ 0 = rw e in
          rw near (
            omega (
              arith,
              match_row-volume size xs total,
              match_row-total size xs total h,
              sweep-total rs (match_row size xs total).total,
            )))
        (λ go near e.
          rw near
            (omega (arith, match_row-total size xs total h, match_row-unfilled size xs total e h)))
