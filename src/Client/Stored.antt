-- ===== src/Client/Stored.antt =====
-- Loops that store one entry after another under their names: the last one of a name stays.
use torc_scheduler.Client.Quiet.{apply_each}
use torc_scheduler.Prelude.{
  String, ◌≡◌, refl, sym, ap, ◌∙◌, inl, inr, Member, Option-cases, eq_iff, eq_refl, Option, none,
  some, List, [], ◌∷◌, arith, ◌==◌, if◌then◌else◌,
}
use torc_scheduler.Server.{State}

module _ {A V : Type 0} (name : A → String) (make : A → V) where
  -- The last entry of a name.
  unfoldable pub last_named : String → List A → Option A
  last_named n [] = none
  last_named n (a ∷ entries) = elim (last_named n entries) [
    | some b ↦ some b
    | none ↦ if name a == n then some a else none
  ]

  -- What the entries leave under a name.
  abbrev pub stored : List A → String → Option V → Option V
  stored entries n o = elim (last_named n entries) [ some a ↦ some (make a) | none ↦ o ]

  stored-step :
      (a : A) (entries : List A) (n : String) (o : Option V)
      → stored entries n (if name a == n then some (make a) else o) ≡ stored (a ∷ entries) n o
  unfolding last_named
  stored-step a entries n o = ground arith

  pub view-stored :
      (view : String → State → Option V) (next : A → State → State)
      → ((a : A) (n : String) (s : State)
          → view n (next a s) ≡ (if name a == n then some (make a) else view n s))
      → (entries : List A) (n : String) (s : State)
      → view n (apply_each next entries s) ≡ stored entries n (view n s)
  unfolding last_named
  view-stored view next step [] n s = refl
  view-stored view next step (a ∷ entries) n s =
      view-stored view next step entries n (next a s)
      ∙ ap (stored entries n) (step a n s)
      ∙ stored-step a entries n (view n s)

  last_named-name :
      (n : String) (b : A) (entries : List A) → last_named n entries ≡ some b → name b ≡ n
  unfolding last_named
  last_named-name n b [] e = cc
  last_named-name n b (a ∷ entries) e =
      ground (arith, eq_iff (name a) n, last_named-name n b entries)

  -- An entry that is there has a last one of its name.
  last_named_at :
      (a : A) (entries : List A)
      → Member a entries
      → (b : A) × (last_named (name a) entries ≡ some b)
  unfolding last_named
  last_named_at a [] h = absurd h
  last_named_at a (b ∷ entries) h = elim (Option-cases (last_named (name a) entries)) [
    | inl e ↦ elim h [
      | inl same ↦ (
        b,
        rw e (
            ap (λ c. if name c == name a then some b else none) (sym same)
            ∙ rw (eq_refl (name a)) refl),
      )
      | inr later ↦ let (c, found) = last_named_at a entries later in (c, cc (sym e ∙ found))
    ]
    | inr (c, e) ↦ (c, rw e refl)
  ]

  pub stored-Member :
      (a : A) (entries : List A) (o : Option V)
      → Member a entries
      → (b : A) × (name b ≡ name a) × (stored entries (name a) o ≡ some (make b))
  stored-Member a entries o h =
      let (b, found) = last_named_at a entries h in
      (
        b,
        last_named-name (name a) b entries found,
        ap (λ l. elim l [ some c ↦ some (make c) | none ↦ o ]) found,
      )
