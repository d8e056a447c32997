-- ===== src/Common/Sorting.antt =====
-- The `ORDER BY` of a query: a sort by a comparison that keeps the order of what compares as equal.
use Prim.Native.Nat.{ℕ, ◌≤◌}
use mathlib.Core.Path.{◌≡◌, refl, sym, subst}
use mathlib.Core.Logic.{inl, inr}
use mathlib.Core.Bool.{Bool, true, false}
use mathlib.Core.List.{List, [], ◌∷◌, Perm}
use mathlib.Core.List.Perm as Perm
use native.Mathlib.Omega.{arith}
use pos_cloud.Common.Tests.{leb, Bool-cases, if◌then◌else◌}
use pos_cloud.Common.Lists.{All}

module _ {A : Type 0} where
  -- Each item is in a relation with the next.
  abbrev pub IsChain : (A → A → Type 0) → List A → Type 0
  IsChain R [] = Unit
  IsChain R (x ∷ []) = Unit
  IsChain R (x ∷ y ∷ xs) = R x y × IsChain R (y ∷ xs)

  module _ (is_before : A → A → Bool) where
    -- `is_before x y` tells that `x` may stand before `y`.
    unfoldable pub insert : A → List A → List A
    insert e [] = e ∷ []
    insert e (x ∷ xs) = let rest = insert e xs in if is_before e x then e ∷ x ∷ xs else x ∷ rest

    unfoldable pub sort : List A → List A
    sort [] = []
    sort (e ∷ es) = insert e (sort es)

    insert_front : (e x : A) (xs : List A) → is_before e x ≡ true → insert e (x ∷ xs) ≡ e ∷ x ∷ xs
    unfolding insert
    insert_front e x xs h = rw (insert, h) refl

    insert_later :
        (e x : A) (xs : List A) → is_before e x ≡ false → insert e (x ∷ xs) ≡ x ∷ insert e xs
    unfolding insert
    insert_later e x xs h = rw (insert, h) refl

    All-insert : (P : A → Type 0) (e : A) (es : List A) → P e → All P es → All P (insert e es)
    unfolding insert
    All-insert P e [] p h = (p, tt)
    All-insert P e (x ∷ xs) p (q, h) = elim (Bool-cases (is_before e x)) [
      | inl front ↦ subst (All P) (sym (insert_front e x xs front)) (p, (q, h))
      | inr later ↦ subst (All P) (sym (insert_later e x xs later)) (q, All-insert P e xs p h)
    ]

    pub All-sort : (P : A → Type 0) (es : List A) → All P es → All P (sort es)
    unfolding sort
    All-sort P [] h = tt
    All-sort P (e ∷ es) (p, h) = All-insert P e (sort es) p (All-sort P es h)

    insert-Perm : (e : A) (es : List A) → Perm (insert e es) (e ∷ es)
    unfolding insert
    insert-Perm e [] = Perm.refl (e ∷ [])
    insert-Perm e (x ∷ xs) = elim (Bool-cases (is_before e x)) [
      | inl front ↦ rw (insert_front e x xs front) (Perm.refl (e ∷ x ∷ xs))
      | inr later ↦
          rw (insert_later e x xs later)
            (Perm.trans (Perm.cons x (insert-Perm e xs)) (Perm.swap e x xs))
    ]

    -- A sort gives the same items in another order.
    pub sort-Perm : (es : List A) → Perm (sort es) es
    unfolding sort
    sort-Perm [] = Perm.refl []
    sort-Perm (e ∷ es) = Perm.trans (insert-Perm e (sort es)) (Perm.cons e (sort-Perm es))

    module _ (R : A → A → Type 0) (yes : (x y : A) → is_before x y ≡ true → R x y)
        (no : (x y : A) → is_before x y ≡ false → R y x) where
      insert_after-IsChain :
          (x e : A) (xs : List A) → R x e → IsChain R (x ∷ xs) → IsChain R (x ∷ insert e xs)
      unfolding insert
      insert_after-IsChain x e [] b h = (b, tt)
      insert_after-IsChain x e (y ∷ ys) b (c, h) = elim (Bool-cases (is_before e y)) [
        | inl front ↦
            subst (λ es. IsChain R (x ∷ es)) (sym (insert_front e y ys front))
              (b, (yes e y front, h))
        | inr later ↦
            subst (λ es. IsChain R (x ∷ es)) (sym (insert_later e y ys later))
              (c, insert_after-IsChain y e ys (no e y later) h)
      ]

      insert-IsChain : (e : A) (es : List A) → IsChain R es → IsChain R (insert e es)
      unfolding insert
      insert-IsChain e [] h = tt
      insert-IsChain e (x ∷ xs) h = elim (Bool-cases (is_before e x)) [
        | inl front ↦ subst (IsChain R) (sym (insert_front e x xs front)) (yes e x front, h)
        | inr later ↦
            subst (IsChain R) (sym (insert_later e x xs later))
              (insert_after-IsChain x e xs (no e x later) h)
      ]

      pub sort-IsChain : (es : List A) → IsChain R (sort es)
      unfolding sort
      sort-IsChain [] = tt
      sort-IsChain (e ∷ es) = insert-IsChain e (sort es) (sort-IsChain es)

  module _ (time : A → ℕ) where
    -- `ORDER BY time DESC`
    abbrev pub is_newer : A → A → Bool
    is_newer x y = leb (time y) (time x)

    pub newest-IsChain : (xs : List A) → IsChain (λ x y. time y ≤ time x) (sort is_newer xs)
    newest-IsChain xs =
        sort-IsChain is_newer (λ x y. time y ≤ time x) (λ x y h. ground arith)
          (λ x y h. ground arith) xs
