-- ===== src/Book/Sweep.antt =====
-- The matching rule for one side of the book, on plain lists: the levels stand best price first.
use cpp_trading_exchange.Base.{
  ℕ, List, [], ◌∷◌, ◌++◌, Bool, ◌+◌, true, false, ltb, if◌then◌else◌, ◌≡◌, refl, ◌⊎◌, inl, inr,
  Bool-cases,
}
use cpp_trading_exchange.Book.Rows.{Resting, match_row, slots, volume}

abbrev pub Row : Type 0
Row = ℕ × List Resting

pub record Swept : Type 0 where
  pub rows : List Row
  pub total : ℕ
  pub closed : List ℕ

abbrev pub is_nil {ℓ} : {A : Type ℓ} → List A → Bool
is_nil [] = true
is_nil (x ∷ xs) = false

-- Level after level, best first, until the quantity is matched or the price is beyond the limit.
unfoldable pub sweep : (ℕ → Bool) → ℕ → List Row → ℕ → Swept
sweep beyond size [] total = record { rows = []; total = total; closed = [] }
sweep beyond size ((k, xs) ∷ rs) total =
    let r = match_row size xs total in
    let rest = sweep beyond size rs r.total in
    if ltb total size
    then (if beyond k
        then record { rows = (k, xs) ∷ rs; total = total; closed = [] }
        else (if is_nil r.rows
            then record rest { closed = r.closed ++ rest.closed }
            else record { rows = (k, r.rows) ∷ rs; total = r.total; closed = r.closed }))
    else record { rows = (k, xs) ∷ rs; total = total; closed = [] }

unfoldable pub all_slots : List Row → List ℕ
all_slots [] = []
all_slots ((k, xs) ∷ rs) = slots xs ++ all_slots rs

-- The quantity on offer at the side.
unfoldable pub depth : List Row → ℕ
depth [] = 0
depth ((k, xs) ∷ rs) = volume xs + depth rs

-- The levels, best first, that a limit lets an order reach.
unfoldable pub reachable : (ℕ → Bool) → List Row → List Row
reachable beyond [] = []
reachable beyond ((k, xs) ∷ rs) = if beyond k then [] else (k, xs) ∷ reachable beyond rs

pub is_nil-eq : {A : Type 0} (xs : List A) → is_nil xs ≡ true → xs ≡ []
is_nil-eq [] h = refl
is_nil-eq (x ∷ xs) h = cc

-- The three ways in which `sweep` deals with its first level.
pub sweep_cases {ℓ} :
    (P : Swept → Type ℓ) (beyond : ℕ → Bool) (size k : ℕ) (xs : List Resting) (rs : List Row)
    (total : ℕ)
    → ((ltb total size ≡ false) ⊎ (beyond k ≡ true)
        → P (record { rows = (k, xs) ∷ rs; total = total; closed = [] }))
    → (ltb total size ≡ true
        → beyond k ≡ false
        → (match_row size xs total).rows ≡ []
        → let r = match_row size xs total in
          let rest = sweep beyond size rs r.total in
          P (record rest { closed = r.closed ++ rest.closed }))
    → (ltb total size ≡ true
        → beyond k ≡ false
        → is_nil (match_row size xs total).rows ≡ false
        → let r = match_row size xs total in
          P (record { rows = (k, r.rows) ∷ rs; total = r.total; closed = r.closed }))
    → P (sweep beyond size ((k, xs) ∷ rs) total)
unfolding sweep
sweep_cases P beyond size k xs rs total stop emptied kept = elim (Bool-cases (ltb total size)) [
  | inr full ↦ rw (sweep, full) (stop (inl full))
  | inl go ↦ elim (Bool-cases (beyond k)) [
    | inl far ↦ rw (sweep, go, far) (stop (inr far))
    | inr near ↦ elim (Bool-cases (is_nil (match_row size xs total).rows)) [
      | inl e ↦ rw (sweep, go, near, e) (emptied go near (is_nil-eq _ e))
      | inr e ↦ rw (sweep, go, near, e) (kept go near e)
    ]
  ]
]
