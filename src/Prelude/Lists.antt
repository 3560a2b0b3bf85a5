-- ===== src/Prelude/Lists.antt =====
-- Lists: lengths in native numbers, membership with its position, and filters by Boolean tests.
use Prim.Native.Nat.{ℕ, suc, ◌+◌}
use mathlib.Core.Path.{◌≡◌}
use mathlib.Core.Logic.{◌⊎◌, ◌↔◌, inl, inr}
use mathlib.Core.Bool.{Bool, true}
use mathlib.Core.List.{List, [], ◌∷◌, ◌++◌}
use native.Mathlib.Omega.{arith}
use torc_scheduler.Prelude.Tests.{if◌then◌else◌}

module _ {ℓ} {A : Type ℓ} where
  abbrev pub length : List A → ℕ
  length [] = 0
  length (x ∷ xs) = suc (length xs)

  unfoldable pub filter_by : (A → Bool) → List A → List A
  filter_by p [] = []
  filter_by p (x ∷ xs) = if p x then x ∷ filter_by p xs else filter_by p xs

  pub length-append : (xs ys : List A) → length (xs ++ ys) ≡ length xs + length ys
  length-append [] ys = omega arith
  length-append (x ∷ xs) ys = omega (arith, length-append xs ys)

-- A place in a list where a value stands.
abbrev pub Member : {A : Type 0} → A → List A → Type 0
Member a [] = ⊥
Member a (x ∷ xs) = (a ≡ x) ⊎ Member a xs

pub member-append_left : {A : Type 0} (a : A) (xs ys : List A) → Member a xs → Member a (xs ++ ys)
member-append_left a [] ys h = absurd h
member-append_left a (x ∷ xs) ys (inl e) = inl e
member-append_left a (x ∷ xs) ys (inr h) = inr (member-append_left a xs ys h)

pub member-append_right : {A : Type 0} (a : A) (xs ys : List A) → Member a ys → Member a (xs ++ ys)
member-append_right a [] ys h = h
member-append_right a (x ∷ xs) ys h = inr (member-append_right a xs ys h)

pub member-append_cases :
    {A : Type 0} (a : A) (xs ys : List A) → Member a (xs ++ ys) → Member a xs ⊎ Member a ys
member-append_cases a [] ys h = inr h
member-append_cases a (x ∷ xs) ys (inl e) = inl (inl e)
member-append_cases a (x ∷ xs) ys (inr h) = elim (member-append_cases a xs ys h) [
  | inl l ↦ inl (inr l)
  | inr r ↦ inr r
]

member-filter_by_kept :
    {A : Type 0} (a : A) (p : A → Bool) (xs : List A)
    → Member a (filter_by p xs)
    → Member a xs × (p a ≡ true)
unfolding filter_by
member-filter_by_kept a p [] h = absurd h
member-filter_by_kept a p (x ∷ xs) h = ground (arith, member-filter_by_kept a p xs)

member-filter_by_keeps :
    {A : Type 0} (a : A) (p : A → Bool) (xs : List A)
    → Member a xs
    → p a ≡ true
    → Member a (filter_by p xs)
unfolding filter_by
member-filter_by_keeps a p [] h e = absurd h
member-filter_by_keeps a p (x ∷ xs) h e = ground (arith, member-filter_by_keeps a p xs)

-- A filter keeps exactly the members that pass.
pub member-filter_by :
    {A : Type 0} (a : A) (p : A → Bool) (xs : List A)
    → Member a (filter_by p xs) ↔ (Member a xs × (p a ≡ true))
member-filter_by a p xs = (member-filter_by_kept a p xs, λ h. member-filter_by_keeps a p xs h.0 h.1)
