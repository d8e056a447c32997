-- ===== src/Common/Text/Index.antt =====
-- Where `indexOf` finds a code unit.
use pos_cloud.Common.{
  ℕ, zero, suc, ◌<◌, ◌≡◌, refl, ap, List, [], ◌∷◌, ◌++◌, none, some, arith, length, take, drop,
}
use pos_cloud.Common.Text.{Text, index_of}

-- The first place of `c` in `s ++ c ∷ t`, if `s` has none.
pub index_of-append :
    (c : ℕ) (s t : Text) → index_of c s ≡ none → index_of c (s ++ c ∷ t) ≡ some (length s)
unfolding index_of
index_of-append c [] t h = ground arith
index_of-append c (d ∷ s) t h = ground (arith, index_of-append c s t)

pub record IsSplit (c : ℕ) (s : Text) (i : ℕ) : Type 0 where
  pub in_range : i < length s
  pub before : index_of c (take i s) ≡ none
  pub length_before : length (take i s) ≡ i
  pub joined : s ≡ take i s ++ c ∷ drop (suc i) s

-- A text splits at the place that `indexOf` gives.
pub index_of-IsSplit : (c : ℕ) (s : Text) (i : ℕ) → index_of c s ≡ some i → IsSplit c s i
unfolding index_of
index_of-IsSplit c [] i h = cc
index_of-IsSplit c (d ∷ s) zero h = record {
  in_range = omega arith;
  before = refl;
  length_before = refl;
  joined = ground arith;
}
index_of-IsSplit c (d ∷ s) (suc i) h =
    let ih : IsSplit c s i = index_of-IsSplit c s i (ground arith) in
    record {
      in_range = omega (arith, ih.in_range);
      before = ground (arith, ih.before);
      length_before = omega (arith, ih.length_before);
      joined = ap (◌∷◌ d) ih.joined;
    }

module _ {ℓ} {A : Type ℓ} where
  pub take-append : (xs ys : List A) → take (length xs) (xs ++ ys) ≡ xs
  take-append [] ys = refl
  take-append (x ∷ xs) ys = ap (◌∷◌ x) (take-append xs ys)

  pub drop-append : (xs ys : List A) (y : A) → drop (suc (length xs)) (xs ++ y ∷ ys) ≡ ys
  drop-append [] ys y = refl
  drop-append (x ∷ xs) ys y = drop-append xs ys y
