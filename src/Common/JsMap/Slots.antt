-- ===== src/Common/JsMap/Slots.antt =====
-- A table in which every owner has at most one live value, under ids from a generator that gives
-- no id twice: the open enrollments and the active credentials of installations.
use pos_cloud.Common.{
  ℕ, suc, ◌≤◌, ◌≡◌, inl, inr, Bool, true, false, ◌&&◌, none, some, arith, ap, subst, Bool-cases,
}
use pos_cloud.Common.Text.{Text, ◌===◌, ===_iff, ===_refl}
use pos_cloud.Common.JsMap.{JsMap, get, set, find, count}
use pos_cloud.Common.JsMap.Laws.{get-set, count-set, find_sound, IsKeyed, set-IsKeyed, get-find}

abbrev pub IsInjective : (ℕ → Text) → Type 0
IsInjective f = (m n : ℕ) → f m ≡ f n → m ≡ n

module _ {V : Type 0} (key owner : V → Text) (live : V → Bool) where
  abbrev pub is_live_for : Text → V → Bool
  is_live_for x v = owner v === x && live v

  -- The ids from the `ids`-th on have not been given out.
  pub record IsSlots (next_id : ℕ → Text) (ids : ℕ) (m : JsMap V) : Type 0 where
    pub keyed : IsKeyed key m
    pub single : (x : Text) → count (is_live_for x) m ≤ 1
    pub fresh : (n : ℕ) → ids ≤ n → get (next_id n) m ≡ none

  -- The row of a live value that was found holds a live value.
  pub found_live :
      (x : Text) (m : JsMap V) (v : V)
      → IsKeyed key m
      → find (is_live_for x) m ≡ some v
      → (u : V) → get (key v) m ≡ some u
      → live u ≡ true
  found_live x m v keyed found u there =
      ground
        (arith, find_sound (is_live_for x) m v found, get-find key (is_live_for x) m v keyed found)

  module _ (next_id : ℕ → Text) where
    pub IsSlots-later :
        {ids later : ℕ} {m : JsMap V}
        → IsSlots next_id ids m
        → ids ≤ later
        → IsSlots next_id later m
    IsSlots-later h le = record {
      keyed = h.keyed;
      single = h.single;
      fresh = λ n k. h.fresh n (omega arith);
    }

    fresh-set :
        {ids : ℕ} (m : JsMap V) (k : Text) (v w : V)
        → ((n : ℕ) → ids ≤ n → get (next_id n) m ≡ none)
        → get k m ≡ some w
        → (n : ℕ) → ids ≤ n
        → get (next_id n) (set k v m) ≡ none
    fresh-set m k v w h found n le =
        ground (arith, get-set (next_id n) k v m, ===_iff (next_id n) k, h n le, ap (λ j. get j m))

    -- A value that is replaced by one that is not live.
    pub retire-IsSlots :
        {ids : ℕ} {m : JsMap V} (v w : V)
        → IsSlots next_id ids m
        → get (key v) m ≡ some w
        → live v ≡ false
        → IsSlots next_id ids (set (key v) v m)
    retire-IsSlots {m} v w h found dead = record {
      keyed = set-IsKeyed key v m h.keyed;
      single = λ x. ground (arith, count-set (is_live_for x) (key v) v m, h.single x);
      fresh = fresh-set m (key v) v w h.fresh found;
    }

    -- After the live value of an owner is replaced so, the owner has none.
    pub retire_clears :
        {ids : ℕ} {m : JsMap V} (x : Text) (v w : V)
        → IsSlots next_id ids m
        → find (is_live_for x) m ≡ some w
        → key v ≡ key w
        → live v ≡ false
        → count (is_live_for x) (set (key v) v m) ≡ 0
    retire_clears {m} x v w h found same dead = ground (
      arith,
      count-set (is_live_for x) (key v) v m,
      h.single x,
      get-find key (is_live_for x) m w h.keyed found,
      find_sound (is_live_for x) m w found,
    )

    single-insert :
        (m : JsMap V) (v : V) (x : Text)
        → count (is_live_for x) m ≤ 1
        → count (is_live_for (owner v)) m ≡ 0
        → count (is_live_for x) (set (key v) v m) ≤ 1
    single-insert m v x one free = elim (Bool-cases (owner v === x)) [
      | inl same ↦
          let none_yet : count (is_live_for x) m ≡ 0 =
            subst (λ y. count (is_live_for y) m ≡ 0) ((===_iff (owner v) x).0 same) free in
          ground (arith, count-set (is_live_for x) (key v) v m)
      | inr other ↦ ground (arith, count-set (is_live_for x) (key v) v m)
    ]

    -- A new live value of an owner that has none.
    pub insert-IsSlots :
        {ids : ℕ} {m : JsMap V} (v : V)
        → IsInjective next_id
        → IsSlots next_id ids m
        → key v ≡ next_id ids
        → count (is_live_for (owner v)) m ≡ 0
        → IsSlots next_id (suc ids) (set (key v) v m)
    insert-IsSlots {ids} {m} v inj h new free = record {
      keyed = set-IsKeyed key v m h.keyed;
      single = λ x. single-insert m v x (h.single x) free;
      fresh = λ n le. ground (
        arith,
        get-set (next_id n) (key v) v m,
        ===_iff (next_id n) (key v),
        h.fresh n (omega arith),
        inj n ids,
      );
    }

    -- Then the owner has one live value.
    pub insert_occupies :
        {ids : ℕ} {m : JsMap V} (v : V)
        → IsSlots next_id ids m
        → key v ≡ next_id ids
        → live v ≡ true
        → count (is_live_for (owner v)) m ≡ 0
        → count (is_live_for (owner v)) (set (key v) v m) ≡ 1
    insert_occupies {ids} {m} v h new alive free =
        let absent : get (key v) m ≡ none = rw new (h.fresh ids (omega arith)) in
        ground (arith, count-set (is_live_for (owner v)) (key v) v m, ===_refl (owner v))
