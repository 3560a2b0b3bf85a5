-- ===== src/Client/Closed.antt =====
-- Properties of actions that hold of all those that only send messages, read the clock and make calls
-- that cannot fail, because each way to build such an action keeps them.
use torc_scheduler.Client.{Exec, pure, ◌>>=◌, call, read_clock, emit, for_each}
use torc_scheduler.Collaborator.{Effect}
use torc_scheduler.Prelude.{Bool, true, false, List, [], ◌∷◌, if◌then◌else◌}
use torc_scheduler.Server.{StateRequestMsg, StateResponseMsg}

pub record Closed : Type 1 where
  pub Holds : {A : Type 0} → Exec A → Type 0
  pub of_pure : {A : Type 0} (a : A) → Holds (pure a)
  pub of_bind :
      {A B : Type 0} (m : Exec A) (f : A → Exec B)
      → Holds m
      → ((a : A) → Holds (f a))
      → Holds (m >>= f)
  pub of_call : (msg : StateRequestMsg) → Holds (call msg)
  pub of_read_clock : Holds read_clock
  pub of_emit : (es : List Effect) → Holds (emit es)

module _ (c : Closed) where
  pub Holds-if :
      {A : Type 0} (b : Bool) (m k : Exec A) → c.Holds m → c.Holds k → c.Holds (if b then m else k)
  Holds-if true m k p q = p
  Holds-if false m k p q = q

  -- A message whose answer is read.
  pub Holds-request :
      {A : Type 0} (msg : StateRequestMsg) (f : StateResponseMsg → A)
      → c.Holds (call msg >>= λ answer. pure (f answer))
  Holds-request msg f = c.of_bind (call msg) _ (c.of_call msg) (λ answer. c.of_pure (f answer))

  pub Holds-for_each :
      {A : Type 0} (body : A → Exec (Unit {0})) (xs : List A)
      → ((x : A) → c.Holds (body x))
      → c.Holds (for_each body xs)
  unfolding for_each
  Holds-for_each body [] step = c.of_pure tt
  Holds-for_each body (x ∷ xs) step =
      c.of_bind (body x) _ (step x) (λ _. Holds-for_each body xs step)
