-- ===== src/Common/GoMap.antt =====
-- Go's `map[string]V` as an association list, and the visiting order of `range`.
pub mod Entries
use mathlib.Core.Path.{◌≡◌, refl}
use mathlib.Core.Logic.{ite}
use mathlib.Core.List.{List, [], ◌∷◌, map, Perm}
use mathlib.Core.Option.{Option, none, some}
use mathlib.Core.Option
use mathlib.Core.Bool.{Bool, true, false}
use native.Mathlib.Omega.{arith}
use iprl_poc.Common.Tests.{Text, text_eq}

abbrev pub Map : Type 0 → Type 0
Map V = List (Text × V)

-- `for k, v := range m` visits every entry once, in an order that the language leaves open.
pub record Range (V : Type 0) : Type 0 where
  pub visit : Map V → Map V
  pub visit-perm : (m : Map V) → Perm (visit m) m

module _ {V : Type 0} where
  -- `v, ok := m[k]`
  unfoldable pub get : Text → Map V → Option V
  get k [] = none
  get k ((j, v) ∷ m) = ite (text_eq j k) (some v) (get k m)

  -- `m[k] = v`
  unfoldable pub insert : Text → V → Map V → Map V
  insert k v [] = (k, v) ∷ []
  insert k v ((j, w) ∷ m) = ite (text_eq j k) ((k, v) ∷ m) ((j, w) ∷ insert k v m)

  -- `delete(m, k)`
  unfoldable pub delete : Text → Map V → Map V
  delete k [] = []
  delete k ((j, w) ∷ m) = ite (text_eq j k) (delete k m) ((j, w) ∷ delete k m)

  abbrev pub keys : Map V → List Text
  keys = map (λ e. e.0)

  abbrev pub values : Map V → List V
  values = map (λ e. e.1)

  pub get-insert :
      (k j : Text) (v : V) (m : Map V) → get j (insert k v m) ≡ ite (text_eq k j) (some v) (get j m)
  unfolding get insert
  get-insert k j v [] = refl
  get-insert k j v ((i, w) ∷ m) = ground (arith, get-insert k j v m)

  pub get-delete : (k j : Text) (m : Map V) → get j (delete k m) ≡ ite (text_eq k j) none (get j m)
  unfolding get delete
  get-delete k j [] = ground arith
  get-delete k j ((i, w) ∷ m) = ground (arith, get-delete k j m)

  -- The keys of `us` that the map has, in their order.
  unfoldable pub filter_keys : Map V → List Text → List Text
  filter_keys m [] = []
  filter_keys m (u ∷ us) = elim (get u m) [
    | some _ ↦ u ∷ filter_keys m us
    | none ↦ filter_keys m us
  ]

module _ {V W : Type 0} where
  -- A write to the value of each entry.
  unfoldable pub map_values : (V → W) → Map V → Map W
  map_values f [] = []
  map_values f ((k, v) ∷ m) = (k, f v) ∷ map_values f m

  pub get-map_values :
      (f : V → W) (k : Text) (m : Map V) → get k (map_values f m) ≡ Option.map f (get k m)
  unfolding get map_values
  get-map_values f k [] = refl
  get-map_values f k ((j, v) ∷ m) = ground (arith, get-map_values f k m)

-- `_, ok := m[k]`
module _ {V : Type 0} where
  abbrev pub contains : Text → Map V → Bool
  contains k m = elim (get k m) [ some _ ↦ true | none ↦ false ]

  pub contains-insert :
      (k j : Text) (v : V) (m : Map V)
      → contains j (insert k v m) ≡ ite (text_eq k j) true (contains j m)
  contains-insert k j v m = ground (arith, get-insert k j v m)

  pub contains-delete :
      (k j : Text) (m : Map V) → contains j (delete k m) ≡ ite (text_eq k j) false (contains j m)
  contains-delete k j m = ground (arith, get-delete k j m)

pub contains-map_values :
    {V W : Type 0} (f : V → W) (k : Text) (m : Map V) → contains k (map_values f m) ≡ contains k m
contains-map_values f k m = ground (arith, get-map_values f k m)
