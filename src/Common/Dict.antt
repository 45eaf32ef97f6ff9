-- ===== src/Common/Dict.antt =====
-- Python's `dict` with texts for keys: the entries in the order of their insertion.
use mathlib.Core.Path.{◌≡◌}
use mathlib.Core.Option.{Option, none, some}
use mathlib.Core.List.{List, [], ◌∷◌}
use Prim.Native.String.{String}
use native.Mathlib.Omega.{arith}
use text.Mathlib.TextEquality.{eq_iff}
use continuous_auth.Common.Tests.{if◌then◌else◌}
use continuous_auth.Common.Text.{same_text}

module _ {ℓ} {V : Type ℓ} where
  -- `d.get(key)`
  abbrev pub lookup : String → List (String × V) → Option V
  lookup key [] = none
  lookup key ((k, v) ∷ d) = let rest = lookup key d in if same_text k key then some v else rest

  -- `d[key] = v`
  abbrev pub store : String → V → List (String × V) → List (String × V)
  store key v [] = (key, v) ∷ []
  store key v ((k, w) ∷ d) =
      let rest = store key v d in if same_text k key then (k, v) ∷ d else (k, w) ∷ rest

  -- `d.pop(key, None)`
  abbrev pub remove : String → List (String × V) → List (String × V)
  remove key [] = []
  remove key ((k, w) ∷ d) =
      let rest = remove key d in if same_text k key then rest else (k, w) ∷ rest

  -- `d.values()`
  abbrev pub values : List (String × V) → List V
  values [] = []
  values ((k, v) ∷ d) = v ∷ values d

  pub lookup-store :
      (j k : String) (v : V) (d : List (String × V))
      → lookup j (store k v d) ≡ (if same_text k j then some v else lookup j d)
  lookup-store j k v [] = ground (arith)
  lookup-store j k v ((i, w) ∷ d) =
      ground (arith, eq_iff k j, eq_iff i k, eq_iff i j, lookup-store j k v d)

  pub lookup-remove :
      (j k : String) (d : List (String × V))
      → lookup j (remove k d) ≡ (if same_text k j then none else lookup j d)
  lookup-remove j k [] = ground arith
  lookup-remove j k ((i, w) ∷ d) =
      ground (arith, eq_iff k j, eq_iff i k, eq_iff i j, lookup-remove j k d)
