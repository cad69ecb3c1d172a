-- ===== src/Base/Cmd.antt =====
-- Commands over a memory `M`. `none` is undefined behaviour, such as an access through a null
-- or dangling pointer.
use Prim.Native.Nat.{ℕ}
use mathlib.Core.Path.{◌≡◌, refl}
use mathlib.Core.Option.{Option, none, some}

abbrev pub Cmd : Type 0 → Type 0 → Type 0
Cmd M A = M → Option (A × M)

module _ {M : Type 0} where
  abbrev pub pure : {A : Type 0} → A → Cmd M A
  pure a m = some (a, m)

  abbrev pub fault : {A : Type 0} → Cmd M A
  fault m = none

  abbrev pub and_then : {A B : Type 0} → Option (A × M) → (A → Cmd M B) → Option (B × M)
  and_then none f = none
  and_then (some (a, m)) f = f a m

  infixl 5 ◌>>=◌ ◌>>◌
  abbrev pub ◌>>=◌ : {A B : Type 0} → Cmd M A → (A → Cmd M B) → Cmd M B
  ◌>>=◌ c f m = and_then (c m) f

  abbrev pub ◌>>◌ : {B : Type 0} → Cmd M (Unit {0}) → Cmd M B → Cmd M B
  c >> k = c >>= λ _. k

  -- A pointer that the code follows without a test for null.
  abbrev pub deref : Option ℕ → Cmd M ℕ
  deref none = fault
  deref (some p) = pure p

-- The run is defined, and its result and memory meet `P`.
pub data Returns {M A : Type 0} (P : A → M → Type 0) : Option (A × M) → Type 0 where
  returns : {a : A} {m : M} → P a m → Returns P (some (a, m))

module _ {M A : Type 0} {P : A → M → Type 0} where
  pub Returns-bind :
      {B : Type 0} {Q : B → M → Type 0} {r : Option (A × M)} {k : A → Cmd M B}
      → Returns P r
      → ((a : A) (m : M) → P a m → Returns Q (k a m))
      → Returns Q (and_then r k)
  Returns-bind (returns p) next = next _ _ p

  pub Returns-mono :
      {Q : A → M → Type 0} {r : Option (A × M)}
      → Returns P r
      → ((a : A) (m : M) → P a m → Q a m)
      → Returns Q r
  Returns-mono (returns p) weaken = returns (weaken _ _ p)

  pub Returns-some :
      {r : Option (A × M)} → Returns P r → (a : A) × (m : M) × (r ≡ some (a, m)) × P a m
  Returns-some (returns p) = (_, _, refl, p)
