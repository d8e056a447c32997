-- ===== src/Common/JsMap.antt =====
-- A JavaScript `Map<string, V>`: entries in insertion order; `set` on a key that is there keeps
-- its place. `find` and `count` walk `values()`, as the loops over the stores of the source do.
pub mod Laws
pub mod Slots
pub mod Table
pub mod Kept
pub mod Summaries
use Prim.Native.Nat.{ℕ, ◌+◌}
use mathlib.Core.Bool.{Bool, true, false}
use mathlib.Core.List.{List, [], ◌∷◌}
use mathlib.Core.Option.{Option, none, some}
use pos_cloud.Common.Tests.{if◌then◌else◌}
use pos_cloud.Common.Lists.{count_of}
use pos_cloud.Common.Text.{Text, ◌===◌}

abbrev pub JsMap {ℓ} : Type ℓ → Type ℓ
JsMap V = List (Text × V)

module _ {ℓ} {V : Type ℓ} where
  -- `map.get(k) ?? null`
  unfoldable pub get : Text → JsMap V → Option V
  get k [] = none
  get k ((j, v) ∷ m) = if k === j then some v else get k m

  -- `map.set(k, v)`
  unfoldable pub set : Text → V → JsMap V → JsMap V
  set k v [] = (k, v) ∷ []
  set k v ((j, w) ∷ m) = if k === j then (j, v) ∷ m else (j, w) ∷ set k v m

  -- `[...map.values()]`
  abbrev pub values : JsMap V → List V
  values [] = []
  values ((j, v) ∷ m) = v ∷ values m

  -- `for (const v of map.values()) if (p(v)) return v; return null;`
  unfoldable pub find : (V → Bool) → JsMap V → Option V
  find p [] = none
  find p ((j, v) ∷ m) = if p v then some v else find p m

  -- `[...map.values()].filter(p).length`
  unfoldable pub count : (V → Bool) → JsMap V → ℕ
  count p [] = 0
  count p ((j, v) ∷ m) = count_of (p v) + count p m

  -- a write to every value in place
  unfoldable pub map_values : (V → V) → JsMap V → JsMap V
  map_values f [] = []
  map_values f ((j, v) ∷ m) = (j, f v) ∷ map_values f m

  -- `ids.map((id) => map.get(id)).filter((v) => v !== undefined)`
  unfoldable pub get_all : List Text → JsMap V → List V
  get_all [] m = []
  get_all (id ∷ ids) m =
      let rest = get_all ids m in elim (get id m) [ none ↦ rest | some v ↦ v ∷ rest ]

  -- how much an entry counts for, if it is there
  abbrev pub count_at : (V → Bool) → Option V → ℕ
  count_at p none = 0
  count_at p (some v) = count_of (p v)
