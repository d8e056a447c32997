-- ===== src/Common/JsMap/Table.antt =====
-- A table of rows under ids from a generator that gives no id twice, in which no two rows have the
-- same label and every row is well-formed: the customers by code and the licenses by number.
use pos_cloud.Common.{ℕ, suc, ◌≤◌, ◌≡◌, inl, inr, none, some, arith, ap, subst, Bool-cases}
use pos_cloud.Common.Text.{Text, ◌===◌, ===_iff}
use pos_cloud.Common.JsMap.{JsMap, get, set, find, count}
use pos_cloud.Common.JsMap.Laws.{get-set, count-set, count-find-none, IsKeyed, set-IsKeyed}
use pos_cloud.Common.JsMap.Slots.{IsInjective}

module _ {V : Type 0} (key label : V → Text) (Good : V → Type 0) (next_id : ℕ → Text) where
  -- The ids from the `ids`-th on have not been given out.
  pub record IsTable (ids : ℕ) (m : JsMap V) : Type 0 where
    pub keyed : IsKeyed key m
    pub unique : (x : Text) → count (λ v. label v === x) m ≤ 1
    pub fresh : (n : ℕ) → ids ≤ n → get (next_id n) m ≡ none
    pub good : (k : Text) (v : V) → get k m ≡ some v → Good v

  pub IsTable-later : {ids later : ℕ} {m : JsMap V} → IsTable ids m → ids ≤ later → IsTable later m
  IsTable-later h le = record {
    keyed = h.keyed;
    unique = h.unique;
    fresh = λ n k. h.fresh n (omega arith);
    good = h.good;
  }

  good-set :
      (v : V) (m : JsMap V)
      → ((k : Text) (u : V) → get k m ≡ some u → Good u)
      → Good v
      → (k : Text) (u : V) → get k (set (key v) v m) ≡ some u
      → Good u
  good-set v m old new k u found = elim (Bool-cases (k === key v)) [
    | inl same ↦ let e : v ≡ u = ground (arith, get-set k (key v) v m) in subst Good e new
    | inr other ↦ old k u (ground (arith, get-set k (key v) v m))
  ]

  unique-insert :
      (v : V) (m : JsMap V) (x : Text)
      → count (λ u. label u === x) m ≤ 1
      → find (λ u. label u === label v) m ≡ none
      → count (λ u. label u === x) (set (key v) v m) ≤ 1
  unique-insert v m x one unused = elim (Bool-cases (label v === x)) [
    | inl same ↦
        let none_yet : count (λ u. label u === x) m ≡ 0 =
          subst (λ c. count (λ u. label u === c) m ≡ 0) ((===_iff (label v) x).0 same)
            (count-find-none (λ u. label u === label v) m unused) in
        ground (arith, count-set (λ u. label u === x) (key v) v m)
    | inr other ↦ ground (arith, count-set (λ u. label u === x) (key v) v m)
  ]

  -- A new row with an unused label.
  pub insert-IsTable :
      {ids : ℕ} {m : JsMap V} (v : V)
      → IsInjective next_id
      → IsTable ids m
      → key v ≡ next_id ids
      → find (λ u. label u === label v) m ≡ none
      → Good v
      → IsTable (suc ids) (set (key v) v m)
  insert-IsTable {ids} {m} v inj h new unused fine = record {
    keyed = set-IsKeyed key v m h.keyed;
    unique = λ x. unique-insert v m x (h.unique x) unused;
    fresh = λ n le. ground (
      arith,
      get-set (next_id n) (key v) v m,
      ===_iff (next_id n) (key v),
      h.fresh n (omega arith),
      inj n ids,
    );
    good = good-set v m h.good fine;
  }

  -- A row that is replaced by one with the same label.
  pub update-IsTable :
      {ids : ℕ} {m : JsMap V} (v u : V)
      → IsTable ids m
      → get (key v) m ≡ some u
      → label v ≡ label u
      → Good v
      → IsTable ids (set (key v) v m)
  update-IsTable {m} v u h found same fine = record {
    keyed = set-IsKeyed key v m h.keyed;
    unique = λ x. ground (arith, count-set (λ w. label w === x) (key v) v m, h.unique x);
    fresh = λ n le. ground (
      arith,
      get-set (next_id n) (key v) v m,
      ===_iff (next_id n) (key v),
      h.fresh n le,
      ap (λ j. get j m),
    );
    good = good-set v m h.good fine;
  }

-- With a condition on the rows that follows from the other.
pub IsTable-weaken :
    {V : Type 0} (key label : V → Text) (Good Good' : V → Type 0) (next_id : ℕ → Text) {ids : ℕ}
    {m : JsMap V}
    → IsTable key label Good next_id ids m
    → ((v : V) → Good v → Good' v)
    → IsTable key label Good' next_id ids m
IsTable-weaken key label Good Good' next_id h weaken = record {
  keyed = h.keyed;
  unique = h.unique;
  fresh = h.fresh;
  good = λ k v found. weaken v (h.good k v found);
}
