-- ===== src/Client/Accepting.antt =====
-- Actions that only call other systems, in an environment in which those calls succeed.
use mathlib.Core.List.{append-nil, append_assoc}
use torc_scheduler.Client.{
  World, Outcome, ok, Exec, pure, panic, continue, ◌>>◌, for_each, call_or_panic, try_call,
}
use torc_scheduler.Client.Quiet.{flat_map}
use torc_scheduler.Collaborator.{Effect}
use torc_scheduler.Prelude.{
  ℕ, ◌≡◌, sym, ap, ◌∙◌, Bool, true, false, List, [], ◌∷◌, ◌++◌, length, if◌then◌else◌,
}

-- Calls of other systems succeed.
abbrev pub Accepts : World → Type 0
Accepts w = (n : ℕ) → w.env.accepts n ≡ true

abbrev pub with_calls : World → List Effect → World
with_calls w es = record w { trace = w.trace ++ es }

-- The action makes the calls `es`, ends without a panic, and does nothing else.
pub record Calls (m : Exec (Unit {0})) (es : List Effect) : Type 0 where
  pub at : (w : World) → Accepts w → m w ≡ (ok tt, with_calls w es)

pub Calls-pure : Calls (pure tt) []
Calls-pure = record {
  at = λ w h. ap (λ l. (ok tt, record w { trace = l })) (sym (append-nil w.trace));
}

pub Calls-call_or_panic : (effect : Effect) → Calls (call_or_panic effect) (effect ∷ [])
unfolding call_or_panic try_call
Calls-call_or_panic effect = record {
  at = λ w h.
      ap (λ b. (if b then pure tt else panic) (with_calls w (effect ∷ []))) (h (length w.trace));
}

pub Calls-then :
    (m k : Exec (Unit {0})) (es fs : List Effect)
    → Calls m es
    → Calls k fs
    → Calls (m >> k) (es ++ fs)
Calls-then m k es fs p q = record {
  at = λ w h.
      ap (λ (r : Outcome (Unit {0}) × World). continue r.0 (λ _. k) r.1) (p.at w h)
      ∙ q.at (with_calls w es) h
      ∙ ap (λ l. (ok tt, record w { trace = l })) (append_assoc w.trace es fs);
}

pub Calls-if :
    (b : Bool) (x y : Exec (Unit {0})) (es fs : List Effect)
    → Calls x es
    → Calls y fs
    → Calls (if b then x else y) (if b then es else fs)
Calls-if true x y es fs p q = p
Calls-if false x y es fs p q = q

pub Calls-for_each :
    {A : Type 0} (body : A → Exec (Unit {0})) (calls : A → List Effect)
    → ((x : A) → Calls (body x) (calls x))
    → (xs : List A) → Calls (for_each body xs) (flat_map calls xs)
unfolding for_each
Calls-for_each body calls step [] = Calls-pure
Calls-for_each body calls step (x ∷ xs) =
    Calls-then (body x) (for_each body xs) (calls x) (flat_map calls xs) (step x)
      (Calls-for_each body calls step xs)
