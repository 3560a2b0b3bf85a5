-- ===== src/Client/Total.antt =====
-- Actions that end without a panic and without calls of other systems, while nothing else happens.
use torc_scheduler.Client.{Exec, pure, unwrap, ◌>>=◌}
use torc_scheduler.Client.Quiet.{Runs, Runs-pure, Runs-bind}
use torc_scheduler.Prelude.{◌≡◌, Bool, true, false, Option, none, some, [], if◌then◌else◌}
use torc_scheduler.Prelude.Int.{ℤ}
use torc_scheduler.Server.{State}

module _ (now : ℤ) where
  -- The action ends without a panic and without calls of other systems.
  abbrev pub Ends : {A : Type 0} → Exec A → State → Type 0
  Ends {A} m s = (a : A) × (s' : State) × Runs now m s a [] s'

  pub Ends-pure : {A : Type 0} (a : A) (s : State) → Ends (pure a) s
  Ends-pure a s = (a, s, Runs-pure now a s)

  pub Ends-bind :
      {A B : Type 0} (m : Exec A) (f : A → Exec B) (s : State)
      → Ends m s
      → ((a : A) (s' : State) → Ends (f a) s')
      → Ends (m >>= f) s
  Ends-bind m f s (a, s1, p) next =
      let (b, s2, q) = next a s1 in (b, s2, Runs-bind now m f s s1 s2 a b [] [] p q)

  pub Ends-if :
      {A : Type 0} (b : Bool) (x y : Exec A) (s : State)
      → Ends x s
      → Ends y s
      → Ends (if b then x else y) s
  Ends-if true x y s p q = p
  Ends-if false x y s p q = q

  pub Ends-unwrap : {A : Type 0} (o : Option A) (a : A) (s : State) → o ≡ some a → Ends (unwrap o) s
  Ends-unwrap none a s e = cc
  Ends-unwrap (some b) a s e = Ends-pure b s
