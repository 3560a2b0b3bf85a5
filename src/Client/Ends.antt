-- ===== src/Client/Ends.antt =====
-- Runs of a thread in any environment: what follows from their having ended without a panic.
use mathlib.Core.List.{append-nil}
use torc_scheduler.Client.{
  World, Outcome, ok, panicked, Exec, pure, unwrap, continue, ◌>>=◌, call_or_panic, when,
}
use torc_scheduler.Collaborator.{Effect}
use torc_scheduler.Prelude.{
  ◌≡◌, refl, sym, ap, ◌∙◌, Bool, true, false, Option, none, some, [], ◌∷◌, ◌++◌, arith,
  if◌then◌else◌,
}

-- A bind that ends well is two runs that do.
pub >>=-eq-ok :
    {A B : Type 0} (m : Exec A) (f : A → Exec B) (w w' : World) (b : B)
    → (m >>= f) w ≡ (ok b, w')
    → (a : A) × (w1 : World) × (m w ≡ (ok a, w1)) × (f a w1 ≡ (ok b, w'))
>>=-eq-ok {A} {B} m f w w' b e = go (m w).0 (m w).1 refl e
  where
    go :
        (r : Outcome A) (w1 : World)
        → m w ≡ (r, w1)
        → continue r f w1 ≡ (ok b, w')
        → (a : A) × (w1 : World) × (m w ≡ (ok a, w1)) × (f a w1 ≡ (ok b, w'))
    go (ok a) w1 p q = (a, w1, p, q)
    go panicked w1 p q = ground arith

pub pure-eq-ok : {A : Type 0} (a b : A) (w w' : World) → pure a w ≡ (ok b, w') → (a ≡ b) × (w ≡ w')
pure-eq-ok a b w w' e = ground arith

pub unwrap-eq-ok :
    {A : Type 0} (o : Option A) (a : A) (w w' : World)
    → unwrap o w ≡ (ok a, w')
    → (o ≡ some a) × (w ≡ w')
unwrap-eq-ok none a w w' e = ground arith
unwrap-eq-ok (some b) a w w' e = ground arith

-- A call that must succeed, made on a test.
pub when-call_or_panic :
    (b : Bool) (effect : Effect) (w w' : World)
    → when b (call_or_panic effect) w ≡ (ok tt, w')
    → w'.trace ≡ w.trace ++ (if b then effect ∷ [] else [])
unfolding call_or_panic
when-call_or_panic true effect w w' e = ground arith
when-call_or_panic false effect w w' e =
    ap (λ (v : World). v.trace) (sym (pure-eq-ok tt tt w w' e).1) ∙ sym (append-nil w.trace)
