-- ===== src/Server/Alike.antt =====
-- When two serving threads of src/state/state.rs hold the same, in whatever order.
use torc_scheduler.NodeList
use torc_scheduler.NodeList.View as NodeView
use torc_scheduler.Prelude.{
  String, ◌≡◌, refl, sym, ap, ◌∙◌, Option, none, some, List, [], ◌∷◌, Member,
}
use torc_scheduler.Prelude.Int.{ℤ}
use torc_scheduler.Records.{Task, TaskState, Node}
use torc_scheduler.Server.{State, StateRequestMsg, Served}
use torc_scheduler.Server.Panics.{AsksUnknownNode, dispatch_panics_iff}
use torc_scheduler.Server.Refinement.{Refines, task_after, node_after, dispatch-Refines}
use torc_scheduler.Server.Serve.{dispatch, next_state, serve_all}
use torc_scheduler.Server.Settings.{SameSettings, dispatch-SameSettings}
use torc_scheduler.Server.Validity.{IsValid}
use torc_scheduler.TaskList
use torc_scheduler.TaskList.Queries.{member-get_tasks_with_state}

-- Both threads have panicked, or they have the same flag and names and hold the same under every
-- name.
abbrev pub Alike : Option State → Option State → Type 0
Alike none none = Unit
Alike (some s) (some s') =
    (s.initialized ≡ s'.initialized)
    × (s.master_ip ≡ s'.master_ip)
    × (s.my_name ≡ s'.my_name)
    × ((n : String) → TaskList.get_task n s.task_list ≡ TaskList.get_task n s'.task_list)
    × ((n : String) → NodeList.get_node n s.node_list ≡ NodeList.get_node n s'.node_list)
Alike _ _ = ⊥

module _ (now : ℤ) (msg : StateRequestMsg) (s s' : State) (same : Alike (some s) (some s')) where
  AsksUnknownNode-Alike : AsksUnknownNode s msg → AsksUnknownNode s' msg
  AsksUnknownNode-Alike = asks msg
    where
      asks : (m : StateRequestMsg) → AsksUnknownNode s m → AsksUnknownNode s' m
      asks (StateRequestMsg.get_node n) h = sym (same.4 n) ∙ h
      asks _ h = absurd h

  AsksUnknownNode-back : AsksUnknownNode s' msg → AsksUnknownNode s msg
  AsksUnknownNode-back = asks msg
    where
      asks : (m : StateRequestMsg) → AsksUnknownNode s' m → AsksUnknownNode s m
      asks (StateRequestMsg.get_node n) h = same.4 n ∙ h
      asks _ h = absurd h

  dispatch-Alike : Alike (next_state (dispatch now s msg)) (next_state (dispatch now s' msg))
  dispatch-Alike =
      go (dispatch now s msg) (dispatch now s' msg) refl refl (dispatch-Refines now s msg)
        (dispatch-Refines now s' msg) (dispatch-SameSettings now s msg)
        (dispatch-SameSettings now s' msg)
    where
      go :
          (d d' : Option Served)
          → dispatch now s msg ≡ d
          → dispatch now s' msg ≡ d'
          → Refines now s msg d
          → Refines now s' msg d'
          → SameSettings s (next_state d)
          → SameSettings s' (next_state d')
          → Alike (next_state d) (next_state d')
      go none none e e' r r' k k' = tt
      go none (some b) e e' r r' k k' = cc (
          sym e'
          ∙ (dispatch_panics_iff now s' msg).1
              (AsksUnknownNode-Alike ((dispatch_panics_iff now s msg).0 e)))
      go (some a) none e e' r r' k k' = cc (
          sym e
          ∙ (dispatch_panics_iff now s msg).1
              (AsksUnknownNode-back ((dispatch_panics_iff now s' msg).0 e')))
      go (some a) (some b) e e' r r' k k' = (
        k.0 ∙ same.0 ∙ sym k'.0,
        k.1 ∙ same.1 ∙ sym k'.1,
        k.2 ∙ same.2 ∙ sym k'.2,
        λ n. r.0 n ∙ ap (task_after now msg n) (same.3 n) ∙ sym (r'.0 n),
        λ n. r.1 n ∙ ap (node_after now msg n) (same.4 n) ∙ sym (r'.1 n),
      )

pub serve_all-Alike :
    (msgs : List (ℤ × StateRequestMsg)) (s s' : Option State)
    → Alike s s'
    → Alike (serve_all msgs s) (serve_all msgs s')
unfolding serve_all
serve_all-Alike msgs none none h = tt
serve_all-Alike msgs none (some s') h = absurd h
serve_all-Alike msgs (some s) none h = absurd h
serve_all-Alike [] (some s) (some s') h = h
serve_all-Alike ((now, msg) ∷ msgs) (some s) (some s') h =
    serve_all-Alike msgs (next_state (dispatch now s msg)) (next_state (dispatch now s' msg))
      (dispatch-Alike now msg s s' h)

-- States with the same contents list the same tasks for every state of a task, and the same nodes.
Alike-listed :
    (s s' : State)
    → IsValid s
    → IsValid s'
    → Alike (some s) (some s')
    → ((t : Task) (k : TaskState)
        → Member t (TaskList.get_tasks_with_state k s.task_list)
        → Member t (TaskList.get_tasks_with_state k s'.task_list))
      × ((v : Node)
          → Member v (NodeList.get_nodes s.node_list)
          → Member v (NodeList.get_nodes s'.node_list))
Alike-listed s s' h h' same = (
  λ t k m.
      let (stored, state) = (member-get_tasks_with_state t k s.task_list h.tasks).0 m in
      (member-get_tasks_with_state t k s'.task_list h'.tasks).1
        (sym (same.3 t.name) ∙ stored, state),
  λ v m.
      (NodeView.member-get_nodes s'.node_list h'.nodes v).1
        (sym (same.4 v.name) ∙ (NodeView.member-get_nodes s.node_list h.nodes v).0 m),
)
