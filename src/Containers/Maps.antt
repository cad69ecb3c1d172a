-- ===== src/Containers/Maps.antt =====
-- What the benchmark relies on in a map, and that both maps have it.
use cpp_trading_exchange.Base.{
  ℕ, ◌+◌, ◌*◌, ◌<◌, ◌≡◌, ◌∙◌, refl, true, false, none, some, List, [], ◌∷◌, inl, inr, map, arith,
  ◌==◌, if◌then◌else◌, Bool-cases, has, Distinct,
}
use cpp_trading_exchange.Base.Cmd.{Returns, returns, Returns-mono}
use cpp_trading_exchange.Book.Levels.{find, put, touch}
use cpp_trading_exchange.Containers.{int_end, Table, map_assign, umap_assign, twice, assign_all}
use cpp_trading_exchange.Containers.Sums.{total}

-- The values of a table, in the order of its entries.
abbrev pub values : Table → List ℕ
values = map (λ kv. kv.1)

-- `m[k] = v` as the benchmark relies on it: it is found, nothing else changes, a new key is one entry.
pub record MapLaws (assign : ℕ → ℕ → Table → Table) : Type 0 where
  pub find-assign :
      (x k v : ℕ) (m : Table) → find x (assign k v m) ≡ (if k == x then some v else find x m)
  pub total-assign :
      (k v : ℕ) (m : Table) → find k m ≡ none → total (values (assign k v m)) ≡ total (values m) + v

find-put :
    (x k v : ℕ) (m : Table)
    → find x (put k v m)
      ≡ (if k == x then (if has x (map (λ kv. kv.0) m) then some v else none) else find x m)
unfolding find put
find-put x k v [] = ground arith
find-put x k v ((j, w) ∷ m) = ground (arith, find-put x k v m)

has-touch : (k : ℕ) (m : Table) → has k (map (λ kv. kv.0) (touch k 0 m)) ≡ true
unfolding touch
has-touch k [] = ground arith
has-touch k ((j, w) ∷ m) = ground (arith, has-touch k m)

find-touch : (x k : ℕ) (m : Table) → (k == x) ≡ false → find x (touch k 0 m) ≡ find x m
unfolding find touch
find-touch x k [] h = ground arith
find-touch x k ((j, w) ∷ m) h = ground (arith, find-touch x k m)

find-map_assign :
    (x k v : ℕ) (m : Table) → find x (map_assign k v m) ≡ (if k == x then some v else find x m)
unfolding map_assign
find-map_assign x k v m = elim (Bool-cases (k == x)) [
  | inl hit ↦
      let same : k ≡ x = ground arith in
      rw (find-put x k v (touch k 0 m), hit) (ground (arith, has-touch k m, same))
  | inr miss ↦ rw (find-put x k v (touch k 0 m), miss) (find-touch x k m miss)
]

put-missing : (k v : ℕ) (m : Table) → find k m ≡ none → put k v m ≡ m
unfolding find put
put-missing k v [] h = refl
put-missing k v ((j, w) ∷ m) h = ground (arith, put-missing k v m)

total-map_assign :
    (k v : ℕ) (m : Table)
    → find k m ≡ none
    → total (values (map_assign k v m)) ≡ total (values m) + v
unfolding map_assign find put touch
total-map_assign k v [] h = ground arith
total-map_assign k v ((j, w) ∷ m) h = ground (arith, total-map_assign k v m, put-missing k v m)

find-umap_assign :
    (x k v : ℕ) (m : Table) → find x (umap_assign k v m) ≡ (if k == x then some v else find x m)
unfolding umap_assign find
find-umap_assign x k v [] = refl
find-umap_assign x k v ((j, w) ∷ m) = ground (arith, find-umap_assign x k v m)

total-umap_assign :
    (k v : ℕ) (m : Table)
    → find k m ≡ none
    → total (values (umap_assign k v m)) ≡ total (values m) + v
unfolding umap_assign find
total-umap_assign k v [] h = omega arith
total-umap_assign k v ((j, w) ∷ m) h = ground (arith, total-umap_assign k v m)

pub map_laws : MapLaws map_assign
map_laws = record { find-assign = find-map_assign; total-assign = total-map_assign }

pub umap_laws : MapLaws umap_assign
umap_laws = record { find-assign = find-umap_assign; total-assign = total-umap_assign }

-- The doubles of all keys are `int`s.
abbrev pub AllSmall : List ℕ → Type 0
AllSmall [] = Unit
AllSmall (k ∷ keys) = (k * 2 < int_end) × AllSmall keys

module _ {M : Type 0} where
  pub twice_lem : (k : ℕ) (m : M) → k * 2 < int_end → twice k m ≡ some (k * 2, m)
  unfolding twice
  twice_lem k m h = ground arith

module _ {M : Type 0} (assign : ℕ → ℕ → Table → Table) (laws : MapLaws assign) where
  -- Assigning the doubles of keys, which may repeat: each key has its double, the others what they had.
  pub assign_all-find :
      (keys : List ℕ) (m : Table) (b : M)
      → AllSmall keys
      → Returns
          (λ m' b'.
            (b' ≡ b) × ((x : ℕ) → find x m' ≡ (if has x keys then some (x * 2) else find x m)))
          (assign_all assign keys m b)
  unfolding assign_all
  assign_all-find [] m b small = returns (refl, λ x. refl)
  assign_all-find (k ∷ keys) m b (small, rest) =
      rw (assign_all, twice_lem k b small)
        (Returns-mono (assign_all-find keys (assign k (k * 2) m) b rest)
          λ m' b' (same, all). (same, λ x. all x ∙ ground (arith, laws.find-assign x k (k * 2) m)))

  -- For new keys that do not repeat, the total of the values grows by that of the doubles.
  pub assign_all-total :
      (keys : List ℕ) (m : Table) (b : M)
      → AllSmall keys
      → Distinct keys
      → ((x : ℕ) → has x keys ≡ true → find x m ≡ none)
      → Returns
          (λ m' _. total (values m') ≡ total (values m) + total (map (λ k. k * 2) keys))
          (assign_all assign keys m b)
  unfolding assign_all
  assign_all-total [] m b small d fresh = returns (omega arith)
  assign_all-total (k ∷ keys) m b (small, rest) (once, d) fresh =
      rw (assign_all, twice_lem k b small)
        (Returns-mono
          (assign_all-total keys (assign k (k * 2) m) b rest d
            λ x h. laws.find-assign x k (k * 2) m ∙ ground (arith, fresh x))
          λ m' b' e. omega (arith, e, laws.total-assign k (k * 2) m (fresh k (ground arith))))
