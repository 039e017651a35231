-- ===== src/Prelude/Map.antt =====
-- The standard library's maps and sets (`HashMap`, `BTreeMap`, `HashSet`) with number keys, as
-- association lists. A list fixes one order of iteration; no law below depends on which.
use mathlib.Core.Logic.{inl, inr}
use mathlib.Core.Path.{◌≡◌, refl}
use mathlib.Core.Logic.{inl, inr}
use mathlib.Core.Bool.{Bool, true, false, ◌||◌}
use mathlib.Core.List.{List, [], ◌∷◌}
use mathlib.Core.Option.{Option, none, some}
use native.Mathlib.Omega.{arith}
use Prim.Native.Nat.{ℕ}
use boa_voice.Prelude.Tests.{◌==◌, if◌then◌else◌, Bool-cases}

abbrev pub Map : Type 0 → Type 0
Map V = List (ℕ × V)

module _ {V : Type 0} where
  unfoldable pub get : ℕ → Map V → Option V
  get k [] = none
  get k ((j, v) ∷ m) = if j == k then some v else get k m

  unfoldable pub insert : ℕ → V → Map V → Map V
  insert k v [] = (k, v) ∷ []
  insert k v ((j, w) ∷ m) = if j == k then (k, v) ∷ m else (j, w) ∷ insert k v m

  unfoldable pub remove : ℕ → Map V → Map V
  remove k [] = []
  remove k ((j, w) ∷ m) = let rest = remove k m in if j == k then rest else (j, w) ∷ rest

  -- `if let Some(v) = map.get_mut(k)` and a write through `v`.
  unfoldable pub modify : ℕ → (V → V) → Map V → Map V
  modify k f [] = []
  modify k f ((j, w) ∷ m) = if j == k then (j, f w) ∷ m else (j, w) ∷ modify k f m

  -- `for v in map.values_mut()` and a write through `v`.
  unfoldable pub map_values : (V → V) → Map V → Map V
  map_values f [] = []
  map_values f ((j, w) ∷ m) = (j, f w) ∷ map_values f m

  unfoldable pub any_value : (V → Bool) → Map V → Bool
  any_value p [] = false
  any_value p ((j, w) ∷ m) = p w || any_value p m

  unfoldable pub contains_key : ℕ → Map V → Bool
  contains_key k [] = false
  contains_key k ((j, w) ∷ m) = j == k || contains_key k m

  -- No key stands twice: what makes the list a map.
  abbrev pub Distinct : Map V → Type 0
  Distinct [] = Unit {0}
  Distinct ((j, w) ∷ m) = (get j m ≡ none) × Distinct m

  pub get-insert :
      (k j : ℕ) (v : V) (m : Map V) → get j (insert k v m) ≡ (if k == j then some v else get j m)
  unfolding get insert
  get-insert k j v [] = refl
  get-insert k j v ((i, w) ∷ m) = ground (arith, get-insert k j v m)

  pub get-remove : (k j : ℕ) (m : Map V) → get j (remove k m) ≡ (if k == j then none else get j m)
  unfolding get remove
  get-remove k j [] = ground arith
  get-remove k j ((i, w) ∷ m) = ground (arith, get-remove k j m)

  pub contains_key-get :
      (k : ℕ) (m : Map V) → contains_key k m ≡ (elim (get k m) [ none ↦ false | some v ↦ true ])
  unfolding get contains_key
  contains_key-get k [] = refl
  contains_key-get k ((i, w) ∷ m) = ground (arith, contains_key-get k m)

  pub insert-Distinct : (k : ℕ) (v : V) (m : Map V) → Distinct m → Distinct (insert k v m)
  unfolding get insert
  insert-Distinct k v [] d = (refl, tt)
  insert-Distinct k v ((i, w) ∷ m) d = ground (arith, insert-Distinct k v m d.1, get-insert k i v m)

  pub remove-Distinct : (k : ℕ) (m : Map V) → Distinct m → Distinct (remove k m)
  unfolding get remove
  remove-Distinct k [] d = tt
  remove-Distinct k ((i, w) ∷ m) d = ground (arith, remove-Distinct k m d.1, get-remove k i m)

  pub get-modify :
      (k j : ℕ) (f : V → V) (m : Map V)
      → get j (modify k f m)
        ≡ (if k == j then (elim (get j m) [ none ↦ none | some v ↦ some (f v) ]) else get j m)
  unfolding get modify
  get-modify k j f [] = ground arith
  get-modify k j f ((i, w) ∷ m) = ground (arith, get-modify k j f m)

  pub get-map_values :
      (j : ℕ) (f : V → V) (m : Map V)
      → get j (map_values f m) ≡ (elim (get j m) [ none ↦ none | some v ↦ some (f v) ])
  unfolding get map_values
  get-map_values j f [] = refl
  get-map_values j f ((i, w) ∷ m) = ground (arith, get-map_values j f m)

  pub modify-Distinct : (k : ℕ) (f : V → V) (m : Map V) → Distinct m → Distinct (modify k f m)
  unfolding get modify
  modify-Distinct k f [] d = tt
  modify-Distinct k f ((i, w) ∷ m) d = ground (arith, modify-Distinct k f m d.1, get-modify k i f m)

  pub map_values-Distinct : (f : V → V) (m : Map V) → Distinct m → Distinct (map_values f m)
  unfolding get map_values
  map_values-Distinct f [] d = tt
  map_values-Distinct f ((i, w) ∷ m) d =
      ground (arith, map_values-Distinct f m d.1, get-map_values i f m)

  -- What `any` over the values says of the lookups, both ways.
  pub any_value-false :
      (p : V → Bool) (m : Map V) (k : ℕ) (v : V)
      → any_value p m ≡ false
      → get k m ≡ some v
      → p v ≡ false
  unfolding get any_value
  any_value-false p [] k v h e = cc
  any_value-false p ((i, w) ∷ m) k v h e = ground (arith, any_value-false p m k v)

  pub any_value-true :
      (p : V → Bool) (m : Map V)
      → Distinct m
      → any_value p m ≡ true
      → (k : ℕ) × (v : V) × (get k m ≡ some v) × (p v ≡ true)
  unfolding get any_value
  any_value-true p [] d h = absurd (ground arith)
  any_value-true p ((i, w) ∷ m) d h = elim (Bool-cases (p w)) [
    | inl yes_here ↦ (i, w, ground arith, yes_here)
    | inr not_here ↦
        let (k, v, e, q) = any_value-true p m d.1 (ground arith) in (k, v, ground arith, q)
  ]

  pub any_value-get :
      (p : V → Bool) (m : Map V) (k : ℕ) (v : V)
      → get k m ≡ some v
      → p v ≡ true
      → any_value p m ≡ true
  any_value-get p m k v e h = elim (Bool-cases (any_value p m)) [
    | inl found ↦ found
    | inr missed ↦ absurd (ground (arith, any_value-false p m k v missed e))
  ]
