-- ===== src/Pagination/Criteria.antt =====
-- What the optional criteria of a query ask of a row.
use pos_cloud.Common.{
  ◌≡◌, refl, ◌↔◌, ◌⊎◌, inl, inr, Bool, true, false, ◌&&◌, ◌||◌, Option, none, some, List, [], ◌∷◌,
  filter,
}
use mathlib.Core.List.{Perm}
use pos_cloud.Common.Text.{Text}
use pos_cloud.Pagination.{truthy}
use pos_cloud.Pagination.Pages.{passes}

-- A criterion that is absent asks nothing.
abbrev pub IsMet : {K : Type 0} → Option K → (K → Type 0) → Type 0
IsMet none P = Unit
IsMet (some k) P = P k

-- The empty text is no criterion either.
abbrev pub IsMetText : Option Text → (Text → Type 0) → Type 0
IsMetText none P = Unit
IsMetText (some []) P = Unit
IsMetText (some (c ∷ s)) P = P (c ∷ s)

-- The rows are those that meet a condition, each as often as it is stored, in another order.
pub record AreThose {V : Type 0} (Meets : V → Type 0) (stored rows : List V) : Type 0 where
  pub test : V → Bool
  pub tests : (v : V) → (test v ≡ true) ↔ Meets v
  pub rearranged : Perm rows (filter test stored)

-- A test that decides a condition.
abbrev pub Decides : Bool → Type 0 → Type 0
Decides b P = (b ≡ true) ↔ P

pub passes-IsMet :
    {K V : Type 0} (o : Option K) (p : K → V → Bool) (P : K → Type 0) (v : V)
    → ((k : K) → Decides (p k v) (P k))
    → Decides (passes o p v) (IsMet o P)
passes-IsMet none p P v h = (λ e. tt, λ e. refl)
passes-IsMet (some k) p P v h = h k

pub passes-IsMetText :
    {V : Type 0} (o : Option Text) (p : Text → V → Bool) (P : Text → Type 0) (v : V)
    → ((k : Text) → Decides (p k v) (P k))
    → Decides (passes (truthy o) p v) (IsMetText o P)
passes-IsMetText none p P v h = (λ e. tt, λ e. refl)
passes-IsMetText (some []) p P v h = (λ e. tt, λ e. refl)
passes-IsMetText (some (c ∷ s)) p P v h = h (c ∷ s)

pub both-Decides :
    (a b : Bool) {P Q : Type 0} → Decides a P → Decides b Q → Decides (a && b) (P × Q)
both-Decides true b h k = (λ e. (h.0 refl, k.0 e), λ (p, q). k.1 q)
both-Decides false b h k = (λ e. absurd (cc e), λ (p, q). h.1 p)

pub either-Decides :
    (a b : Bool) {P Q : Type 0} → Decides a P → Decides b Q → Decides (a || b) (P ⊎ Q)
either-Decides true b h k = (λ e. inl (h.0 refl), λ e. refl)
either-Decides false b h k =
    (λ e. inr (k.0 e), λ o. elim o [ inl p ↦ absurd (cc (h.1 p)) | inr q ↦ k.1 q ])
