-- ===== src/Common/Maps.antt =====
-- std::map from uint256 keys, as an association list with the keys in ascending order.
use Prim.Native.Nat.{ℕ, ◌≤◌, ◌<◌}
use mathlib.Core.Path.{◌≡◌, refl}
use mathlib.Core.List.{List, [], ◌∷◌}
use mathlib.Core.Option.{Option, none, some}
use native.Mathlib.Omega.{arith}
use darcoin.Common.Lists.{All}
use darcoin.Common.Tests.{ltb, ◌==◌, if◌then◌else◌}

module _ {ℓ} {V : Type ℓ} where
  unfoldable pub lookup : ℕ → List (ℕ × V) → Option V
  lookup k [] = none
  lookup k ((j, v) ∷ m) = if j == k then some v else lookup k m

  -- m[k] = v
  unfoldable pub insert : ℕ → V → List (ℕ × V) → List (ℕ × V)
  insert k v [] = (k, v) ∷ []
  insert k v ((j, w) ∷ m) =
      let rest = insert k v m in
      if ltb k j then (k, v) ∷ (j, w) ∷ m else if j == k then (k, v) ∷ m else (j, w) ∷ rest

  -- Removes every entry of the key; a std::map has one at most.
  unfoldable pub erase : ℕ → List (ℕ × V) → List (ℕ × V)
  erase k [] = []
  erase k ((j, w) ∷ m) = if j == k then erase k m else (j, w) ∷ erase k m

  pub lookup-insert :
      (new asked : ℕ) (value : V) (entries : List (ℕ × V))
      → lookup asked (insert new value entries)
        ≡ (if new == asked then some value else lookup asked entries)
  unfolding lookup insert
  lookup-insert new asked value [] = refl
  lookup-insert new asked value ((first, old) ∷ entries) =
      ground (arith, lookup-insert new asked value entries)

  pub lookup-erase :
      (k j : ℕ) (m : List (ℕ × V)) → lookup j (erase k m) ≡ (if k == j then none else lookup j m)
  unfolding lookup erase
  lookup-erase k j [] = ground arith
  lookup-erase k j ((i, w) ∷ m) = ground (arith, lookup-erase k j m)

module _ {V : Type 0} where
  abbrev pub or_else : Option V → Option V → Option V
  or_else none o = o
  or_else (some v) o = some v

  -- The entry that stands last, where a key stands more than once.
  unfoldable pub last_value : ℕ → List (ℕ × V) → Option V
  last_value k [] = none
  last_value k ((j, v) ∷ m) = or_else (last_value k m) (if j == k then some v else none)

  -- The keys rise, as in a std::map.
  abbrev pub Ascending : List (ℕ × V) → Type 0
  Ascending [] = Unit {0}
  Ascending ((k, v) ∷ m) = All (λ (e : ℕ × V). k < e.0) m × Ascending m

  absent_below :
      (k j : ℕ) (m : List (ℕ × V)) → All (λ (e : ℕ × V). j < e.0) m → k ≤ j → lookup k m ≡ none
  unfolding lookup
  absent_below k j [] h b = refl
  absent_below k j ((i, v) ∷ m) h b = ground (arith, absent_below k j m h.1 b)

  pub last_value-lookup : (k : ℕ) (m : List (ℕ × V)) → Ascending m → last_value k m ≡ lookup k m
  unfolding lookup last_value
  last_value-lookup k [] h = refl
  last_value-lookup k ((j, v) ∷ m) h =
      ground (arith, last_value-lookup k m h.1, absent_below k j m h.0)

  insert_above :
      (b k : ℕ) (v : V) (m : List (ℕ × V))
      → b < k
      → All (λ (e : ℕ × V). b < e.0) m
      → All (λ (e : ℕ × V). b < e.0) (insert k v m)
  unfolding insert
  insert_above b k v [] h a = (h, tt)
  insert_above b k v ((j, w) ∷ m) h a = ground (arith, insert_above b k v m h a.1)

  weaken_above :
      (b c : ℕ) (m : List (ℕ × V))
      → b ≤ c
      → All (λ (e : ℕ × V). c < e.0) m
      → All (λ (e : ℕ × V). b < e.0) m
  weaken_above b c [] h a = tt
  weaken_above b c ((j, w) ∷ m) h a = (omega arith, weaken_above b c m h a.1)

  pub insert-Ascending : (k : ℕ) (v : V) (m : List (ℕ × V)) → Ascending m → Ascending (insert k v m)
  unfolding insert
  insert-Ascending k v [] h = (tt, tt)
  insert-Ascending k v ((j, w) ∷ m) h =
      ground (arith, insert-Ascending k v m h.1, weaken_above k j m, insert_above j k v m)
