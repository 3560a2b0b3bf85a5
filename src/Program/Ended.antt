-- ===== src/Program/Ended.antt =====
-- When the program of src/main.rs goes on, and when it is over.
use torc_scheduler.Client.{World, Outcome, ok, panicked, Exec}
use torc_scheduler.Client.Moves.{serve_all-none}
use torc_scheduler.Client.Needs.{NeedsServer, needing}
use torc_scheduler.Client.StateManager.{TaskConfig}
use torc_scheduler.Config.Settings.{DnsEntry}
use torc_scheduler.Health.{health_round}
use torc_scheduler.Background.{sync_round, clean_round}
use torc_scheduler.Prelude.{◌≡◌, refl, sym, ap, ◌∙◌, ◌⊎◌, inl, inr, false, none, some, List}
use torc_scheduler.Program.{Program, Phase, enters, stays, is_over, Setting, Step, Reaches}
use torc_scheduler.Program.Reached.{Step-Advances}
use torc_scheduler.Program.Rounds.{Holds-sync_round, Holds-clean_round, Holds-health_round}
use torc_scheduler.Server.{State}
use torc_scheduler.Server.Serve.{serve_all}

-- The three loops that are no callbacks of libraries go on, the health checker's with these services.
pub record GoesOn (checked : List TaskConfig × List DnsEntry) (p : Program) : Type 0 where
  pub health : p.health ≡ Phase.looping checked
  pub syncing : p.syncing ≡ Phase.looping tt
  pub cleaning : p.cleaning ≡ Phase.looping tt

-- The serving thread is gone, or they go on.
abbrev EndsOrGoesOn : List TaskConfig × List DnsEntry → Program → Type 0
EndsOrGoesOn checked p = (p.world.server ≡ none) ⊎ GoesOn checked p

pub looping_inj : {A : Type 0} {a b : A} → Phase.looping a ≡ Phase.looping b → a ≡ b
looping_inj e = cc

-- A round that stops its thread finds the serving thread gone.
enters_or_gone :
    (m : Exec (Unit {0})) (w : World)
    → NeedsServer m
    → ((m w).1.server ≡ none) ⊎ (enters (m w).0 ≡ Phase.looping tt)
enters_or_gone m w h = go (m w) (h.at w)
  where
    go :
        (r : Outcome (Unit {0}) × World)
        → (r.0 ≡ panicked → r.1.server ≡ none)
        → (r.1.server ≡ none) ⊎ (enters r.0 ≡ Phase.looping tt)
    go (ok u, w) h = inr refl
    go (panicked, w) h = inl (h refl)

stays_or_gone :
    {A : Type 0} (a : A) (m : Exec (Unit {0})) (w : World)
    → NeedsServer m
    → ((m w).1.server ≡ none) ⊎ (stays a (m w).0 ≡ Phase.looping a)
stays_or_gone a m w h = go (m w) (h.at w)
  where
    go :
        (r : Outcome (Unit {0}) × World)
        → (r.0 ≡ panicked → r.1.server ≡ none)
        → (r.1.server ≡ none) ⊎ (stays a r.0 ≡ Phase.looping a)
    go (ok u, w) h = inr refl
    go (panicked, w) h = inl (h refl)

module _ (x : Setting) (checked : List TaskConfig × List DnsEntry) where
  Step-EndsOrGoesOn : (p q : Program) → GoesOn checked p → Step x p q → EndsOrGoesOn checked q
  Step-EndsOrGoesOn p q g (Step.health_starts _ _ e) = cc (sym e ∙ g.health)
  Step-EndsOrGoesOn p q g (Step.checks _ tasks entries _ e) =
      let same : (tasks, entries) ≡ checked = looping_inj (sym e ∙ g.health) in
      elim (stays_or_gone {A = List TaskConfig × List DnsEntry} (tasks, entries)
        (health_round x.sm tasks entries) p.world (Holds-health_round needing x.sm tasks entries)) [
          | inl gone ↦ inl gone
          | inr on ↦ inr (record {
            health = on ∙ ap (λ (c : List TaskConfig × List DnsEntry). Phase.looping c) same;
            syncing = g.syncing;
            cleaning = g.cleaning;
          })
        ]
  Step-EndsOrGoesOn p q g (Step.syncs _ _ _) =
      elim (enters_or_gone (sync_round x.sm) p.world (Holds-sync_round needing x.sm)) [
        | inl gone ↦ inl gone
        | inr on ↦ inr (record { health = g.health; syncing = on; cleaning = g.cleaning })
      ]
  Step-EndsOrGoesOn p q g (Step.cleans _ _ _) =
      elim (enters_or_gone (clean_round x.sm x.clean_config) p.world
        (Holds-clean_round needing x.sm x.clean_config)) [
          | inl gone ↦ inl gone
          | inr on ↦ inr (record { health = g.health; syncing = g.syncing; cleaning = on })
        ]
  Step-EndsOrGoesOn p q g _ =
      inr (record { health = g.health; syncing = g.syncing; cleaning = g.cleaning })

  pub gone_stays : (p q : Program) → p.world.server ≡ none → Step x p q → q.world.server ≡ none
  gone_stays p q gone s =
      let on = Step-Advances x p q s in
      on.serving ∙ ap (serve_all on.msgs) gone ∙ serve_all-none on.msgs

  Reaches-EndsOrGoesOn : (p q : Program) → GoesOn checked p → Reaches x p q → EndsOrGoesOn checked q
  Reaches-EndsOrGoesOn first last g (Reaches.here _) = inr g
  Reaches-EndsOrGoesOn first last g (Reaches.after {p} {q} {r} before s) =
      elim (Reaches-EndsOrGoesOn first q g before) [
        | inl gone ↦ inl (gone_stays q last gone s)
        | inr on ↦ Step-EndsOrGoesOn q last on s
      ]

  -- Once the health checker, the syncing and the cleaning thread are in their loops: wherever the
  -- program gets from there, as long as the serving thread lives, all three still are, the health
  -- checker with the same services and entries, and the program is not over.
  pub program_stays_up :
      (p q : Program) (s : State)
      → GoesOn checked p
      → Reaches x p q
      → q.world.server ≡ some s
      → GoesOn checked q × (is_over q ≡ false)
  program_stays_up p q s g reached alive = elim (Reaches-EndsOrGoesOn p q g reached) [
    | inl gone ↦ cc (sym gone ∙ alive)
    | inr on ↦ (on, rw on.health refl)
  ]
