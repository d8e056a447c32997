-- ===== src/Common/JsMap/Laws.antt =====
-- The laws of maps: reads after writes, and how many entries pass a test.
use Prim.Native.Nat.{◌+◌, ◌≤◌}
use mathlib.Core.Path.{◌≡◌, refl, sym, ap}
use mathlib.Core.Logic.{inl, inr}
use mathlib.Core.Bool.{Bool, true, false}
use mathlib.Core.List.{[], ◌∷◌}
use mathlib.Core.Option.{none, some}
use native.Mathlib.Omega.{arith}
use pos_cloud.Common.Tests.{if◌then◌else◌, Bool-cases}
use pos_cloud.Common.Lists.{count_of, All}
use pos_cloud.Common.Text.{Text, ◌===◌, ===_iff, ===_refl}
use pos_cloud.Common.JsMap.{JsMap, get, set, find, values, count, count_at, map_values}

module _ {ℓ} {V : Type ℓ} where
  pub get-set :
      (j k : Text) (v : V) (m : JsMap V) → get j (set k v m) ≡ (if j === k then some v else get j m)
  unfolding get set
  get-set j k v [] = refl
  get-set j k v ((i, w) ∷ m) =
      ground (arith, ===_iff j k, ===_iff k i, ===_iff j i, get-set j k v m)

  pub get-set_self : (k : Text) (v : V) (m : JsMap V) → get k (set k v m) ≡ some v
  get-set_self k v m = rw (get-set k k v m, ===_refl k)

  -- A write of what is there.
  pub set-get : (k : Text) (v : V) (m : JsMap V) → get k m ≡ some v → set k v m ≡ m
  unfolding get set
  set-get k v [] h = cc h
  set-get k v ((j, w) ∷ m) h = ground (arith, set-get k v m)

  -- The values that pass a test, before and after a write.
  pub count-set :
      (p : V → Bool) (k : Text) (v : V) (m : JsMap V)
      → count p (set k v m) + count_at p (get k m) ≡ count p m + count_of (p v)
  unfolding count set get
  count-set p k v [] = omega arith
  count-set p k v ((j, w) ∷ m) = ground (arith, count-set p k v m)

  pub count-find-none : (p : V → Bool) (m : JsMap V) → find p m ≡ none → count p m ≡ 0
  unfolding find count
  count-find-none p [] h = refl
  count-find-none p ((j, v) ∷ m) h = ground (arith, count-find-none p m)

  pub find_sound : (p : V → Bool) (m : JsMap V) (v : V) → find p m ≡ some v → p v ≡ true
  unfolding find
  find_sound p [] v h = cc
  find_sound p ((j, w) ∷ m) v h = ground (arith, find_sound p m v)

  -- What `get` finds is counted.
  pub count-get :
      (p : V → Bool) (k : Text) (m : JsMap V) (v : V)
      → get k m ≡ some v
      → p v ≡ true
      → 1 ≤ count p m
  unfolding count get
  count-get p k [] v h t = cc
  count-get p k ((j, w) ∷ m) v h t = ground (arith, count-get p k m v)

  pub get-map_values :
      (f : V → V) (k : Text) (m : JsMap V) (v : V)
      → get k m ≡ some v
      → get k (map_values f m) ≡ some (f v)
  unfolding get map_values
  get-map_values f k [] v h = cc
  get-map_values f k ((j, w) ∷ m) v h = ground (arith, get-map_values f k m v)

  pub count-map_values :
      (p : V → Bool) (f : V → V) (m : JsMap V)
      → ((v : V) → p (f v) ≡ false)
      → count p (map_values f m) ≡ 0
  unfolding count map_values
  count-map_values p f [] h = refl
  count-map_values p f ((j, v) ∷ m) h = ground (arith, count-map_values p f m h, h v)

  -- Every entry is stored under the key of its value, once.
  module _ (key : V → Text) where
    abbrev pub IsKeyed : JsMap V → Type ℓ
    IsKeyed [] = Unit
    IsKeyed ((j, v) ∷ m) = (j ≡ key v) × (get j m ≡ none) × IsKeyed m

    pub set-IsKeyed : (v : V) (m : JsMap V) → IsKeyed m → IsKeyed (set (key v) v m)
    unfolding set get
    set-IsKeyed v [] h = (refl, refl, tt)
    set-IsKeyed v ((j, w) ∷ m) (e, n, h) = elim (Bool-cases (key v === j)) [
      | inl same ↦ rw same (sym ((===_iff (key v) j).0 same), n, h)
      | inr other ↦ rw other (
        e,
        ground (arith, get-set j (key v) v m, ===_iff (key v) j, ===_iff j (key v)),
        set-IsKeyed v m h,
      )
    ]

    -- In such a map a found value is the one under its key.
    pub get-find :
        (p : V → Bool) (m : JsMap V) (v : V)
        → IsKeyed m
        → find p m ≡ some v
        → get (key v) m ≡ some v
    unfolding find get
    get-find p [] v h f = cc
    get-find p ((j, w) ∷ m) v (e, n, h) f = ground (arith, get-find p m v h, ===_iff (key v) j)

    pub key_of_get : (k : Text) (m : JsMap V) (v : V) → IsKeyed m → get k m ≡ some v → key v ≡ k
    unfolding get
    key_of_get k [] v h f = cc
    key_of_get k ((j, w) ∷ m) v (e, n, h) f = ground (arith, key_of_get k m v h, ===_iff k j)

    -- A value found by a test stays the one found if it is replaced by one that passes the test.
    pub find-set :
        (p : V → Bool) (m : JsMap V) (v w : V)
        → IsKeyed m
        → find p m ≡ some v
        → key w ≡ key v
        → p w ≡ true
        → find p (set (key w) w m) ≡ some w
    unfolding find set
    find-set p [] v w h f same t = cc
    find-set p ((j, u) ∷ m) v w (e, n, h) f same t =
        ground (arith, find-set p m v w h, ===_iff (key w) j, get-find p m v h, ap (λ k. get k m))

    -- What holds of every entry holds of every value.
    pub values-All {κ} :
        (P : V → Type κ) (m : JsMap V)
        → IsKeyed m
        → ((k : Text) (v : V) → get k m ≡ some v → P v)
        → All P (values m)
    unfolding get
    values-All P [] h entries = tt
    values-All P ((j, w) ∷ m) (e, n, h) entries = (
      entries j w (ground (arith, ===_refl j)),
      values-All P m h λ k v found. entries k v (ground (arith, ===_iff k j, ap (λ i. get i m))),
    )
