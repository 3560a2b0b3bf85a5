-- ===== src/Api/Groups.antt =====
-- The services that the handler of /start/group in src/api/run_api.rs starts, while no other thread
-- interferes.
use torc_scheduler.Api.{
  JsonCodec, json_response, argument_of, start_service, start_group, start_groups,
  handle_start_service_group,
}
use torc_scheduler.Background.Cleaned.{apply_each_keeps}
use torc_scheduler.Client.{pure, unwrap, ◌>>=◌, when, for_each, read_clock}
use torc_scheduler.Client.Lock.{Runs-locked}
use torc_scheduler.Client.Quiet.{
  Runs, Runs-pure, Runs-bind, Runs-unwrap, Runs-request, Runs-read_clock, apply_each, flat_map,
}
use torc_scheduler.Client.StateManager.{StateManager, TaskConfig, new_task, send_start_task}
use torc_scheduler.Client.Stored.{stored, view-stored}
use torc_scheduler.Config.{YamlLibrary, read_task}
use torc_scheduler.Prelude.{
  String, ◌≡◌, refl, sym, subst, Bool, true, false, Option, some, List, [], ◌∷◌, ◌++◌, is_empty,
  ◌==◌, if◌then◌else◌,
}
use torc_scheduler.Prelude.Int.{ℤ}
use torc_scheduler.Prelude.Panic.{AllRead}
use torc_scheduler.Server.{State, StateRequestMsg}
use torc_scheduler.Server.Handlers
use torc_scheduler.Server.Serve.{dispatch}
use torc_scheduler.TaskList
use torc_scheduler.TaskList.View as TaskView

-- A group: its name and its services.
abbrev pub Group : Type 0
Group = String × List TaskConfig

-- The services of the groups of that name.
abbrev pub chosen : String → List Group → List TaskConfig
chosen name groups = flat_map (λ (g : Group). if g.0 == name then g.1 else []) groups

apply_each-append :
    {A S : Type 0} (next : A → S → S) (xs ys : List A) (s : S)
    → apply_each next (xs ++ ys) s ≡ apply_each next ys (apply_each next xs s)
apply_each-append next [] ys s = refl
apply_each-append next (x ∷ xs) ys s = apply_each-append next xs ys (next x s)

module _ (codec : JsonCodec) (lib : YamlLibrary) (sm : StateManager) where
  -- The entry of the configuration is read as that group.
  abbrev pub ReadsGroup : lib.Yaml → Group → Type 0
  ReadsGroup entry g =
      (services : List lib.Yaml) × (lib.as_str (lib.index entry "name") ≡ some g.0)
      × (lib.as_vec (lib.index entry "services") ≡ some services)
      × AllRead (read_task lib sm.master_ip) services g.1

  abbrev pub AllGroups : List lib.Yaml → List Group → Type 0
  AllGroups [] [] = Unit
  AllGroups [] (g ∷ groups) = ⊥
  AllGroups (entry ∷ entries) [] = ⊥
  AllGroups (entry ∷ entries) (g ∷ groups) = ReadsGroup entry g × AllGroups entries groups

  module _ (now : ℤ) where
    abbrev with_started : TaskConfig → State → State
    with_started c s = record s {
      task_list = TaskList.add_new_task (new_task sm c false now) s.task_list;
    }

    abbrev all_started : List TaskConfig → State → State
    all_started cs s = apply_each with_started cs s

    Runs-send_start_task :
        (c : TaskConfig) (s : State)
        → Runs now (send_start_task sm c false) s tt [] (with_started c s)
    unfolding send_start_task dispatch Handlers.handle_start_task
    Runs-send_start_task c s =
        Runs-bind now read_clock _ s s (with_started c s) now tt [] [] (Runs-read_clock now s) (
          Runs-request now (λ _. tt) (StateRequestMsg.start_task (new_task sm c false now)) s _
            refl)

    Runs-start_services :
        (services : List lib.Yaml) (cs : List TaskConfig) (s : State)
        → AllRead (read_task lib sm.master_ip) services cs
        → Runs now (for_each (start_service codec lib sm) services) s tt [] (all_started cs s)
    unfolding for_each
    Runs-start_services [] [] s h = Runs-pure now tt s
    Runs-start_services [] (c ∷ cs) s h = absurd h
    Runs-start_services (v ∷ services) [] s h = absurd h
    Runs-start_services (v ∷ services) (c ∷ cs) s h =
        let s1 = with_started c s in
        Runs-bind now (start_service codec lib sm v) _ s s1 (all_started cs s1) tt tt [] []
          (Runs-bind now _ _ s s s1 c tt [] []
            (Runs-locked now "start_service_group_state_manager"
              (unwrap (read_task lib sm.master_ip v)) s s c [] (Runs-unwrap now _ c s h.0))
            (Runs-locked now "start_service_group_state_manager" (send_start_task sm c false) s s1
              tt [] (Runs-send_start_task c s)))
          (Runs-start_services services cs s1 h.1)

    Runs-when_named :
        (b : Bool) (entry : lib.Yaml) (g : Group) (s : State)
        → ReadsGroup entry g
        → Runs now
            (when b do
              services ← unwrap (lib.as_vec (lib.index entry "services"))
              for_each (start_service codec lib sm) services)
            s
            tt
            []
            (all_started (if b then g.1 else []) s)
    Runs-when_named false entry g s h = Runs-pure now tt s
    Runs-when_named true entry g s (services, named, listed, read) =
        Runs-bind now (unwrap (lib.as_vec (lib.index entry "services"))) _ s s (all_started g.1 s)
          services tt [] [] (Runs-unwrap now _ services s listed)
          (Runs-start_services services g.1 s read)

    Runs-each_group :
        (name : String) (entries : List lib.Yaml) (groups : List Group) (s : State)
        → AllGroups entries groups
        → Runs now
            (for_each (start_group codec lib sm name) entries)
            s
            tt
            []
            (all_started (chosen name groups) s)
    unfolding for_each
    Runs-each_group name [] [] s h = Runs-pure now tt s
    Runs-each_group name [] (g ∷ groups) s h = absurd h
    Runs-each_group name (entry ∷ entries) [] s h = absurd h
    Runs-each_group name (entry ∷ entries) (g ∷ groups) s h =
        let own : List TaskConfig = if g.0 == name then g.1 else [] in
        let s1 = all_started own s in
        let s2 = all_started (chosen name groups) s1 in
        subst (λ u. Runs now (for_each (start_group codec lib sm name) (entry ∷ entries)) s tt [] u)
          (sym (apply_each-append with_started own (chosen name groups) s))
          (Runs-bind now (start_group codec lib sm name entry) _ s s1 s2 tt tt [] []
            (Runs-bind now (unwrap (lib.as_str (lib.index entry "name"))) _ s s s1 g.0 tt [] []
              (Runs-unwrap now _ g.0 s h.0.1) (Runs-when_named (g.0 == name) entry g s h.0))
            (Runs-each_group name entries groups s1 h.1))

    get_task-all_started :
        (cs : List TaskConfig) (n : String) (s : State)
        → TaskList.get_task n (all_started cs s).task_list
          ≡ stored
              (λ (c : TaskConfig). c.name)
              (λ c. new_task sm c false now)
              cs
              n
              (TaskList.get_task n s.task_list)
    get_task-all_started =
        view-stored (λ (c : TaskConfig). c.name) (λ c. new_task sm c false now)
          (λ n s. TaskList.get_task n s.task_list) with_started
          (λ c n s. TaskView.get_task-add_new_task s.task_list n (new_task sm c false now))

    -- In a quiet environment, with groups that can be read, a request to start a group is answered,
    -- calls nothing, leaves every node, and stores as requested exactly the services of the groups
    -- of that name, each under its name, the last one of a name.
    pub handle_start_service_group_lem :
        (config : lib.Yaml) (query : Option String) (entries : List lib.Yaml) (groups : List Group)
        (s : State)
        → is_empty (argument_of "name=" 5 query) ≡ false
        → lib.as_vec (lib.index (lib.index config "api") "service-groups") ≡ some entries
        → AllGroups entries groups
        → (s' : State) × Runs now
            (handle_start_service_group codec lib sm config query)
            s
            (json_response (codec.encode_result "done"))
            []
            s'
          × ((n : String)
              → TaskList.get_task n s'.task_list
                ≡ stored
                    (λ (c : TaskConfig). c.name)
                    (λ c. new_task sm c false now)
                    (chosen (argument_of "name=" 5 query) groups)
                    n
                    (TaskList.get_task n s.task_list))
          × (s'.node_list ≡ s.node_list)
    unfolding handle_start_service_group
    handle_start_service_group_lem config query entries groups s named listed read =
        let name = argument_of "name=" 5 query in
        let cs = chosen name groups in
        let s' = all_started cs s in
        let answer = json_response (codec.encode_result "done") in
        (
          s',
          Runs-bind now _ _ s s' s' tt answer [] []
              (subst
                (λ b.
                  Runs now (if b then pure tt else start_groups codec lib sm config name) s tt []
                    s')
                (sym named)
                (Runs-bind now _ _ s s s' config tt [] []
                  (Runs-locked now "start_service_group_state_manager" (pure config) s s config []
                    (Runs-pure now config s))
                  (Runs-bind now
                    (unwrap (lib.as_vec (lib.index (lib.index config "api") "service-groups"))) _ s
                    s s' entries tt [] [] (Runs-unwrap now _ entries s listed)
                    (Runs-each_group name entries groups s read))))
              (Runs-pure now answer s'),
          λ n. get_task-all_started cs n s,
          apply_each_keeps (λ u. u.node_list ≡ s.node_list) with_started (λ c u h. h) cs s refl,
        )
