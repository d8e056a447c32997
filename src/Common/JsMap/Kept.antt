-- ===== src/Common/JsMap/Kept.antt =====
-- Maps that agree on the entries of one that pass a test.
use pos_cloud.Common.{◌≢◌, none, sym, ◌≡◌, Bool, true, false, some, arith, ap, ◌∙◌}
use pos_cloud.Common.Text.{Text, ===_iff}
use pos_cloud.Common.JsMap.{JsMap, get, set}
use pos_cloud.Common.JsMap.Laws.{get-set}

module _ {V : Type 0} (final : V → Bool) where
  abbrev pub IsKept : JsMap V → JsMap V → Type 0
  IsKept m m' = (k : Text) (v : V) → get k m ≡ some v → final v ≡ true → get k m' ≡ some v

  pub IsKept-same : (m m' : JsMap V) → m' ≡ m → IsKept m m'
  IsKept-same m m' same k v found done = ap (get k) same ∙ found

  pub IsKept-trans : (m m' m'' : JsMap V) → IsKept m m' → IsKept m' m'' → IsKept m m''
  IsKept-trans m m' m'' f g k v found done = g k v (f k v found done) done

  -- A write where there was no entry, or one that does not pass the test.
  pub IsKept-set :
      (j : Text) (w : V) (m : JsMap V)
      → ((u : V) → get j m ≡ some u → final u ≡ false)
      → IsKept m (set j w m)
  IsKept-set j w m unfinished k v found done =
      ground (arith, get-set k j w m, ===_iff k j, ap (λ i. get i m), unfinished v)

-- No entry is removed.
module _ {V : Type 0} where
  abbrev pub Stays : JsMap V → JsMap V → Type 0
  Stays m m' = (k : Text) → get k m ≢ none → get k m' ≢ none

  pub Stays-same : (m m' : JsMap V) → m' ≡ m → Stays m m'
  Stays-same m m' same k there gone = there (sym (ap (get k) same) ∙ gone)

  pub Stays-set : (j : Text) (w : V) (m : JsMap V) → Stays m (set j w m)
  Stays-set j w m k there gone = there (ground (arith, get-set k j w m))
