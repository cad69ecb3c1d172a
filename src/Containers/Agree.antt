-- ===== src/Containers/Agree.antt =====
-- The three containers give the same values, lookup by lookup, and in `run_benchmark` as a whole.
use cpp_trading_exchange.Base.{
  ℕ, ◌*◌, ◌≡◌, ◌∙◌, refl, sym, ap, true, none, some, List, [], ◌∷◌, ◌++◌, map, has, if◌then◌else◌,
}
use mathlib.Core.List.{append-nil, append_assoc}
use cpp_trading_exchange.Base.Cmd.{Returns, returns, Returns-mono}
use cpp_trading_exchange.Book.Levels.{find}
use cpp_trading_exchange.Containers.{
  Entry, Table, map_assign, umap_assign, value_of, vector_value, sort_by_key, push_all, assign_all,
}
use cpp_trading_exchange.Containers.Sums.{has-Perm}
use cpp_trading_exchange.Containers.Search.{entry, sort_by_key_lem, vector_value_lem}
use cpp_trading_exchange.Containers.Maps.{map_laws, umap_laws, AllSmall, twice_lem, assign_all-find}

pub push_all_lem :
    {M : Type 0} (keys : List ℕ) (vec : List Entry) (b : M)
    → AllSmall keys
    → push_all keys vec b ≡ some (vec ++ map entry keys, b)
unfolding push_all
push_all_lem [] vec b small = ap (λ v. some (v, b)) (sym (append-nil vec))
push_all_lem (k ∷ keys) vec b (small, rest) =
    rw (push_all, twice_lem k b small, push_all_lem keys (vec ++ entry k ∷ []) b rest)
      (ap (λ v. some (v, b)) (append_assoc vec (entry k ∷ []) (map entry keys)))

-- The lookup of a key that one of the insertions stored.
pub value_of_lem :
    (keys : List ℕ) (m : Table) (k : ℕ)
    → ((x : ℕ) → find x m ≡ (if has x keys then some (x * 2) else none))
    → has k keys ≡ true
    → value_of m k ≡ some (k * 2)
unfolding value_of
value_of_lem keys m k all h = rw (value_of, all k, h) refl

pub sorted_value :
    (keys : List ℕ) (k : ℕ)
    → has k keys ≡ true
    → vector_value (sort_by_key (map entry keys)) k ≡ some (k * 2)
sorted_value keys k h =
    let (js, e, d, sorted) = sort_by_key_lem keys in
    ap (λ v. vector_value v k) e ∙ vector_value_lem js k sorted (sym (has-Perm k d) ∙ h)

-- For any keys whose doubles are `int`s, in any order, repeated or not, all three insertions are
-- defined, and the lookup of each of the keys gives its double in the sorted vector, in the map and in
-- the unordered map.
pub containers-agree :
    {M : Type 0} (keys : List ℕ) (k : ℕ) (b : M)
    → AllSmall keys
    → has k keys ≡ true
    → Returns (λ vec _. vector_value (sort_by_key vec) k ≡ some (k * 2)) (push_all keys [] b)
      × Returns (λ m _. value_of m k ≡ some (k * 2)) (assign_all map_assign keys [] b)
      × Returns (λ m _. value_of m k ≡ some (k * 2)) (assign_all umap_assign keys [] b)
unfolding find
containers-agree keys k b small h = (
  rw (push_all_lem keys [] b small) (returns (sorted_value keys k h)),
  Returns-mono (assign_all-find map_assign map_laws keys [] b small)
      λ m b' (_, all). value_of_lem keys m k all h,
  Returns-mono (assign_all-find umap_assign umap_laws keys [] b small)
      λ m b' (_, all). value_of_lem keys m k all h,
)
