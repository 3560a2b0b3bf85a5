-- ===== src/Server/Settings.antt =====
-- The fields of the serving thread of src/state/state.rs that no message changes.
use torc_scheduler.Prelude.{String, ◌≡◌, refl, ◌∙◌, Option, none, some, List, [], ◌∷◌, arith}
use torc_scheduler.Prelude.Int.{ℤ}
use torc_scheduler.Server.{State, StateRequestMsg}
use torc_scheduler.Server.Handlers
use torc_scheduler.Server.Serve.{dispatch, next_state, serve_all}

-- The flag and the two names of a state that is still there are those of the state before.
abbrev pub SameSettings : State → Option State → Type 0
SameSettings s none = Unit
SameSettings s (some t) =
    (t.initialized ≡ s.initialized) × (t.master_ip ≡ s.master_ip) × (t.my_name ≡ s.my_name)

handle_get_node-SameSettings :
    (s : State) (n : String) → SameSettings s (next_state (Handlers.handle_get_node s n))
unfolding Handlers.handle_get_node
handle_get_node-SameSettings s n = ground arith

pub dispatch-SameSettings :
    (now : ℤ) (s : State) (msg : StateRequestMsg) → SameSettings s (next_state (dispatch now s msg))
unfolding dispatch Handlers.handle_ping Handlers.handle_get_task_state Handlers.handle_get_task_ip
    Handlers.handle_get_task_name_by_id Handlers.handle_update_task_state
    Handlers.handle_update_task_node_name Handlers.handle_update_task_info
    Handlers.handle_update_task_last_update Handlers.handle_start_task Handlers.handle_restart_task
    Handlers.handle_get_is_restartable_task Handlers.handle_remove_task_by_name
    Handlers.handle_get_requested_tasks Handlers.handle_get_running_tasks
    Handlers.handle_get_restart_tasks Handlers.handle_add_node Handlers.handle_get_is_node_active
    Handlers.handle_update_node Handlers.handle_set_node_inactive Handlers.handle_get_nodes
dispatch-SameSettings now s (StateRequestMsg.get_node n) = handle_get_node-SameSettings s n
dispatch-SameSettings now s _ = (refl, refl, refl)

SameSettings-trans :
    (s t : State) (o : Option State) → SameSettings s (some t) → SameSettings t o → SameSettings s o
SameSettings-trans s t none h k = tt
SameSettings-trans s t (some u) h k = (k.0 ∙ h.0, k.1 ∙ h.1, k.2 ∙ h.2)

serve_all_keeps :
    (msgs : List (ℤ × StateRequestMsg)) (s : State) (o : Option State)
    → SameSettings s o
    → SameSettings s (serve_all msgs o)
unfolding serve_all
serve_all_keeps msgs s none h = tt
serve_all_keeps [] s (some t) h = h
serve_all_keeps ((now, msg) ∷ msgs) s (some t) h =
    serve_all_keeps msgs s (next_state (dispatch now t msg))
      (SameSettings-trans s t (next_state (dispatch now t msg)) h (dispatch-SameSettings now t msg))

pub serve_all-SameSettings :
    (msgs : List (ℤ × StateRequestMsg)) (s : State) → SameSettings s (serve_all msgs (some s))
serve_all-SameSettings msgs s = serve_all_keeps msgs s (some s) (refl, refl, refl)
