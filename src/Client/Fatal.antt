-- ===== src/Client/Fatal.antt =====
-- What an announcement for a node that is not in the list does: src/state/state.rs,
-- `send_announce_task` and the handler of `GetNode`.
use torc_scheduler.Client.{World, call}
use torc_scheduler.Client.Dead.{Dies, call_fatal, Dies-bind, Dies-after}
use torc_scheduler.Client.Quiet.{IsQuiet, Runs, Runs-request}
use torc_scheduler.Client.StateManager.{
  StateManager, send_announce_task, announce_new, request_node, request_task_name_by_id,
}
use torc_scheduler.NodeList
use torc_scheduler.Prelude.{String, ◌≡◌, refl, subst, none, []}
use torc_scheduler.Prelude.Int.{ℤ}
use torc_scheduler.Records.{Task}
use torc_scheduler.Server.{State, StateRequestMsg}
use torc_scheduler.Server.Handlers
use torc_scheduler.Server.Panics.{dispatch_panics_iff}
use torc_scheduler.Server.Serve.{dispatch}
use torc_scheduler.TaskList

pub request_node-Dies :
    (now : ℤ) (s : State) (n : String) (w : World)
    → IsQuiet now s w
    → NodeList.get_node n s.node_list ≡ none
    → Dies (request_node n) w
unfolding request_node
request_node-Dies now s n w q unknown = Dies-bind (call (StateRequestMsg.get_node n)) _ w (
    call_fatal now s (StateRequestMsg.get_node n) w q
      ((dispatch_panics_iff now s (StateRequestMsg.get_node n)).1 unknown))

announce_new-Dies :
    (sm : StateManager) (now : ℤ) (s : State) (t : Task) (w : World)
    → IsQuiet now s w
    → NodeList.get_node t.node_name s.node_list ≡ none
    → Dies (announce_new sm t) w
unfolding announce_new
announce_new-Dies sm now s t w q unknown =
    Dies-bind (request_node t.node_name) _ w (request_node-Dies now s t.node_name w q unknown)

-- In a quiet environment, announcing a task whose id begins no stored id, on a node that is not in
-- the list, makes the thread that announces panic and leaves no serving thread.
pub send_announce_task-Dies :
    (sm : StateManager) (now : ℤ) (s : State) (t : Task) (w : World)
    → IsQuiet now s w
    → TaskList.get_task_name_by_id t.id s.task_list ≡ ""
    → NodeList.get_node t.node_name s.node_list ≡ none
    → Dies (send_announce_task sm t) w
unfolding send_announce_task request_task_name_by_id dispatch Handlers.handle_get_task_name_by_id
send_announce_task-Dies sm now s t w q new unknown =
    let asks : Runs now (request_task_name_by_id t.id) s "" [] s =
      subst (λ n. Runs now (request_task_name_by_id t.id) s n [] s) new
        (Runs-request now _ (StateRequestMsg.get_task_name_by_id t.id) s _ refl) in
    let (w1, asked, _, q1, _) = asks.at w q in
    Dies-after (request_task_name_by_id t.id) _ w "" w1 asked
      (announce_new-Dies sm now s t w1 q1 unknown)
