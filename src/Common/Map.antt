-- ===== src/Common/Map.antt =====
-- `BTreeMap<u64, V>`: an association list in ascending order of its keys.
use Prim.Native.Nat.{ℕ, ◌<◌}
use mathlib.Core.Path.{◌≡◌, refl}
use mathlib.Core.Bool.{Bool, true, false}
use mathlib.Core.Option.{Option, none, some}
use mathlib.Core.List.{List, [], ◌∷◌}
use native.Mathlib.Omega.{arith}
use duckdb_object_storage.Common.Tests.{ltb, ◌==◌, if◌then◌else◌}

abbrev pub Map {ℓ} : Type ℓ → Type ℓ
Map V = List (ℕ × V)

module _ {ℓ} {V : Type ℓ} where
  unfoldable pub get : ℕ → Map V → Option V
  get k [] = none
  get k ((j, v) ∷ m) = if j == k then some v else get k m

  unfoldable pub insert : ℕ → V → Map V → Map V
  insert k v [] = (k, v) ∷ []
  insert k v ((j, w) ∷ m) =
      if ltb k j then (k, v) ∷ (j, w) ∷ m else if j == k then (k, v) ∷ m else (j, w) ∷ insert k v m

  -- `BTreeMap::retain` by a test of the key
  unfoldable pub retain : (ℕ → Bool) → Map V → Map V
  retain keep [] = []
  retain keep ((j, v) ∷ m) = if keep j then (j, v) ∷ retain keep m else retain keep m

  -- `BTreeMap::extend`
  unfoldable pub extend : List (ℕ × V) → Map V → Map V
  extend [] m = m
  extend ((k, v) ∷ entries) m = extend entries (insert k v m)

  unfoldable pub is_empty : Map V → Bool
  is_empty [] = true
  is_empty (e ∷ m) = false

  -- Every key lies above `k`, and the keys ascend.
  abbrev pub Above : ℕ → Map V → Type 0
  Above k [] = Unit
  Above k ((j, v) ∷ m) = (k < j) × Above j m

  abbrev pub IsSorted : Map V → Type 0
  IsSorted [] = Unit
  IsSorted ((j, v) ∷ m) = Above j m

  -- Every key is a u64.
  abbrev pub IsBounded : Map V → Type 0
  IsBounded [] = Unit
  IsBounded ((j, v) ∷ m) = (j < 18446744073709551616) × IsBounded m

  pub insert-IsBounded :
      (k : ℕ) (v : V) (m : Map V)
      → k < 18446744073709551616
      → IsBounded m
      → IsBounded (insert k v m)
  unfolding insert
  insert-IsBounded k v [] u b = (u, tt)
  insert-IsBounded k v ((j, w) ∷ m) u (uj, b) = ground (arith, insert-IsBounded k v m u b)

  pub retain-IsBounded : (keep : ℕ → Bool) (m : Map V) → IsBounded m → IsBounded (retain keep m)
  unfolding retain
  retain-IsBounded keep [] b = tt
  retain-IsBounded keep ((j, w) ∷ m) (uj, b) = ground (arith, retain-IsBounded keep m b)

  pub extend-IsBounded :
      (es : List (ℕ × V)) (m : Map V) → IsBounded es → IsBounded m → IsBounded (extend es m)
  unfolding extend
  extend-IsBounded [] m be b = b
  extend-IsBounded ((k, v) ∷ es) m (u, be) b =
      extend-IsBounded es (insert k v m) be (insert-IsBounded k v m u b)

  pub get-insert :
      (k j : ℕ) (v : V) (m : Map V) → get j (insert k v m) ≡ (if k == j then some v else get j m)
  unfolding get insert
  get-insert k j v [] = refl
  get-insert k j v ((i, w) ∷ m) = ground (arith, get-insert k j v m)

  pub get-retain :
      (keep : ℕ → Bool) (j : ℕ) (m : Map V)
      → get j (retain keep m) ≡ (if keep j then get j m else none)
  unfolding get retain
  get-retain keep j [] = ground arith
  get-retain keep j ((i, w) ∷ m) = ground (arith, get-retain keep j m)

  Above-lower : (k j : ℕ) (m : Map V) → k < j → Above j m → Above k m
  Above-lower k j [] h a = tt
  Above-lower k j ((i, w) ∷ m) h a = (omega arith, a.1)

  pub get-Above : (k : ℕ) (m : Map V) → Above k m → get k m ≡ none
  unfolding get
  get-Above k [] a = refl
  get-Above k ((i, w) ∷ m) a = ground (arith, get-Above k m, Above-lower k i m)

  Above-insert : (b k : ℕ) (v : V) (m : Map V) → b < k → Above b m → Above b (insert k v m)
  unfolding insert
  Above-insert b k v [] h a = (h, tt)
  Above-insert b k v ((i, w) ∷ m) h a = ground (arith, Above-insert i k v m)

  pub insert-IsSorted : (k : ℕ) (v : V) (m : Map V) → IsSorted m → IsSorted (insert k v m)
  unfolding insert
  insert-IsSorted k v [] s = tt
  insert-IsSorted k v ((i, w) ∷ m) s = ground (arith, Above-insert i k v m)

  Above-retain : (b : ℕ) (keep : ℕ → Bool) (m : Map V) → Above b m → Above b (retain keep m)
  unfolding retain
  Above-retain b keep [] a = tt
  Above-retain b keep ((i, w) ∷ m) a =
      ground (arith, Above-retain i keep m, Above-retain b keep m, Above-lower b i m)

  pub IsSorted-of_Above : (b : ℕ) (m : Map V) → Above b m → IsSorted m
  IsSorted-of_Above b [] a = tt
  IsSorted-of_Above b ((j, w) ∷ m) a = a.1

  pub retain-IsSorted : (keep : ℕ → Bool) (m : Map V) → IsSorted m → IsSorted (retain keep m)
  unfolding retain
  retain-IsSorted keep [] s = tt
  retain-IsSorted keep ((i, w) ∷ m) s =
      ground (arith, Above-retain i keep m, IsSorted-of_Above i (retain keep m))

  pub extend-IsSorted : (es : List (ℕ × V)) (m : Map V) → IsSorted m → IsSorted (extend es m)
  unfolding extend
  extend-IsSorted [] m s = s
  extend-IsSorted ((k, v) ∷ es) m s = extend-IsSorted es (insert k v m) (insert-IsSorted k v m s)
