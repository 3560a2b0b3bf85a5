-- ===== src/Program/Over.antt =====
-- How a request in src/api/run_api.rs ends the program of src/main.rs.
use torc_scheduler.Api.{argument_of}
use torc_scheduler.Api.Answers.{handle_node_startup-Dies}
use torc_scheduler.Api.Routes.{Method, Handler, Request, routes, handle, answer_by, respond}
use torc_scheduler.Client.{Outcome, ok, panicked}
use torc_scheduler.Client.Dead.{Dies, Dies-bind}
use torc_scheduler.Client.Quiet.{IsQuiet}
use torc_scheduler.Client.StateManager.{TaskConfig}
use torc_scheduler.Config.Settings.{DnsEntry}
use torc_scheduler.Health.{health_round}
use torc_scheduler.NodeList
use torc_scheduler.Prelude.{
  String, ◌≡◌, refl, sym, ap, subst, ◌∙◌, ◌⊎◌, inl, inr, true, false, none, some, List, ◌∷◌,
  is_empty,
}
use torc_scheduler.Prelude.Int.{ℤ}
use torc_scheduler.Program.{Program, Phase, stays, is_over, has_stopped, Setting, Step, Reaches}
use torc_scheduler.Program.Ended.{gone_stays, looping_inj}
use torc_scheduler.Server.{State}
use torc_scheduler.Start.Stopped.{health_round-Dies}

-- One more round of the health checker ends the program, and then there is no further step.
abbrev pub EndsNext : Setting → Program → Type 0
EndsNext x q = (r : Program) × Step x q r × (is_over r ≡ true) × ((r' : Program) → ¬ Step x r r')

stays_cases :
    {A : Type 0} (a : A) (o : Outcome (Unit {0}))
    → (stays a o ≡ Phase.looping a) ⊎ (has_stopped (stays a o) ≡ true)
stays_cases a (ok u) = inl refl
stays_cases a panicked = inr refl

module _ (x : Setting) where
  over_is_final : (p q : Program) → is_over p ≡ true → ¬ Step x p q
  over_is_final p q over (Step.api_starts _ on _) = cc (sym over ∙ on)
  over_is_final p q over (Step.answers _ _ _ _ on _) = cc (sym over ∙ on)
  over_is_final p q over (Step.scheduler_starts _ on _) = cc (sym over ∙ on)
  over_is_final p q over (Step.calls_back _ _ on _) = cc (sym over ∙ on)
  over_is_final p q over (Step.health_starts _ on _) = cc (sym over ∙ on)
  over_is_final p q over (Step.checks _ _ _ on _) = cc (sym over ∙ on)
  over_is_final p q over (Step.syncs _ on _) = cc (sym over ∙ on)
  over_is_final p q over (Step.cleans _ on _) = cc (sym over ∙ on)

  module _ (t : TaskConfig) (tasks : List TaskConfig) (entries : List DnsEntry) where
    abbrev IsChecking : Program → Type 0
    IsChecking p = p.health ≡ Phase.looping (t ∷ tasks, entries)

    dead-EndsNext : (q : Program) → IsChecking q → q.world.server ≡ none → EndsNext x q
    dead-EndsNext q checking gone =
        let d = health_round-Dies x.codec x.json x.sm x.clean_config q.world gone t tasks entries in
        let r : Program =
          (let (o, w) = health_round x.sm (t ∷ tasks) entries q.world in
            record q { world = w; health = stays (t ∷ tasks, entries) o }) in
        let over : is_over r ≡ true = rw d.outcome refl in
        (
          r,
          Step.checks q (t ∷ tasks) entries (rw checking refl) checking,
          over,
          λ r'. over_is_final r r' over,
        )

    Step-IsChecking :
        (p q : Program) → IsChecking p → Step x p q → IsChecking q ⊎ (is_over q ≡ true)
    Step-IsChecking p q c (Step.health_starts _ _ e) = cc (sym e ∙ c)
    Step-IsChecking p q c (Step.checks _ tasks' entries' _ e) =
        let same : ◌≡◌ {A = List TaskConfig × List DnsEntry} (tasks', entries')
            (t ∷ tasks, entries) =
          looping_inj (sym e ∙ c) in
        let run : Outcome (Unit {0}) = (health_round x.sm tasks' entries' p.world).0 in
        elim (stays_cases {A = List TaskConfig × List DnsEntry} (tasks', entries') run) [
          | inl on ↦ inl (on ∙ ap (λ (a : List TaskConfig × List DnsEntry). Phase.looping a) same)
          | inr over ↦ inr over
        ]
    Step-IsChecking p q c _ = inl c

    Reaches-IsChecking :
        (p q : Program)
        → IsChecking p
        → p.world.server ≡ none
        → Reaches x p q
        → (q.world.server ≡ none) × (IsChecking q ⊎ (is_over q ≡ true))
    Reaches-IsChecking first last c gone (Reaches.here _) = (gone, inl c)
    Reaches-IsChecking first last c gone (Reaches.after {p} {q} {r} before s) =
        let (gone', earlier) = Reaches-IsChecking first q c gone before in
        (
          gone_stays x (t ∷ tasks, entries) q last gone' s,
          elim earlier [
            | inl c' ↦ Step-IsChecking q last c' s
            | inr over ↦ absurd (over_is_final q last over s)
          ],
        )

    -- In a quiet environment, while the API answers and the health checker loops over at least one
    -- service: a request that is routed to the start of a node, by a name that is given but not in
    -- the list, is a step after which the serving thread is gone wherever the program gets, and the
    -- program is over there, or a round of the health checker ends it and no step follows.
    pub unknown_node_ends_program :
        (now : ℤ) (s : State) (p : Program) (path : String) (request : Request)
        → IsQuiet now s p.world
        → p.api ≡ Phase.looping tt
        → p.health ≡ Phase.looping (t ∷ tasks, entries)
        → x.router routes Method.get path ≡ some Handler.node_startup
        → is_empty (argument_of "name=" 5 request.query) ≡ false
        → NodeList.get_node (argument_of "name=" 5 request.query) s.node_list ≡ none
        → (q : Program) × Step x p q
          × ((r : Program)
              → Reaches x q r
              → (r.world.server ≡ none) × ((is_over r ≡ true) ⊎ EndsNext x r))
    unfolding respond handle
    unknown_node_ends_program now s p path request q api checking routed given unknown =
        let w = (respond x.codec x.yaml x.config x.sm x.router Method.get path request p.world).1 in
        let d : Dies (respond x.codec x.yaml x.config x.sm x.router Method.get path request)
            p.world =
          subst (λ o. Dies (answer_by x.codec x.yaml x.config x.sm o request) p.world) (sym routed)
            (Dies-bind _ _ p.world (
              handle_node_startup-Dies x.codec x.sm now s request.query p.world q given unknown)) in
        let p1 : Program = record p { world = w } in
        (
          p1,
          Step.answers p Method.get path request (rw checking refl) api,
          λ r reached.
              let (gone, at_last) = Reaches-IsChecking p1 r checking d.server reached in
              (gone, elim at_last [ inl c ↦ inr (dead-EndsNext r c gone) | inr over ↦ inl over ]),
        )
