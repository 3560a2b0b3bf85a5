-- ===== src/Scheduler/Update/Fatal.antt =====
-- A report that a task runs on a host that is not in the node list: `update` of
-- src/scheduler/scheduler_impl.rs and `handle_inspect_data` of src/utils/docker.rs.
use torc_scheduler.Client.{World, unwrap}
use torc_scheduler.Client.Dead.{Dies, Dies-bind, Dies-Runs}
use torc_scheduler.Client.Fatal.{request_node-Dies}
use torc_scheduler.Client.Quiet.{IsQuiet, Runs-unwrap}
use torc_scheduler.Client.StateManager.{request_node}
use torc_scheduler.Mesos.{MesosTaskState, TaskStatus}
use torc_scheduler.NodeList
use torc_scheduler.Prelude.{String, ◌≡◌, sym, subst, none, some, [], ◌∷◌}
use torc_scheduler.Prelude.Int.{ℤ}
use torc_scheduler.Scheduler.Update.{
  JsonLibrary, first_of_array, string_at, ip_or_empty, own_or_node_ip, handle_inspect_data,
  task_started, react, update,
}
use torc_scheduler.Scheduler.Update.Running.{
  Inspected, ip_path, Runs-first, Runs-string_at, Runs-ip_or_empty,
}
use torc_scheduler.Server.{State}

module _ (lib : JsonLibrary) (now : ℤ) (s : State) where
  own_or_node_ip-Dies :
      (host : String) (w : World)
      → IsQuiet now s w
      → NodeList.get_node host s.node_list ≡ none
      → Dies (own_or_node_ip lib "" host) w
  unfolding own_or_node_ip
  own_or_node_ip-Dies host w q unknown =
      Dies-bind (request_node host) _ w (request_node-Dies now s host w q unknown)

  handle_inspect_data-Dies :
      (task text slave id host : String) (w : World)
      → IsQuiet now s w
      → Inspected lib text id host ""
      → NodeList.get_node host s.node_list ≡ none
      → Dies (handle_inspect_data lib task text slave) w
  unfolding handle_inspect_data
  handle_inspect_data-Dies task text slave id host w q r unknown =
      Dies-Runs now (unwrap (lib.from_str text)) _ s s r.json [] w q
        (Runs-unwrap now _ r.json s r.parsed)
        (λ w1 q1.
          Dies-Runs now (string_at lib r.json ("Id" ∷ [])) _ s s id [] w1 q1
            (Runs-string_at lib now r.json r.first r.rest ("Id" ∷ []) id s r.listed r.id_at)
            (λ w2 q2.
              Dies-Runs now (string_at lib r.json ("Config" ∷ "Hostname" ∷ [])) _ s s host [] w2 q2
                (Runs-string_at lib now r.json r.first r.rest ("Config" ∷ "Hostname" ∷ []) host s
                  r.listed r.host_at)
                (λ w3 q3.
                  Dies-Runs now (first_of_array lib r.json) _ s s r.first [] w3 q3
                    (Runs-first lib now r.json r.first r.rest s r.listed)
                    (λ w4 q4.
                      Dies-Runs now (ip_or_empty lib (lib.find_path r.first ip_path)) _ s s "" [] w4
                        q4 (Runs-ip_or_empty lib now r.first "" s r.ip_at)
                        (λ w5 q5.
                          Dies-bind (own_or_node_ip lib "" host) _ w5
                            (own_or_node_ip-Dies host w5 q5 unknown))))))

  -- In a quiet environment a report that a task runs in a container without an address of its own,
  -- on a host that is not in the node list, makes the callback panic and leaves no serving thread.
  pub update-Dies :
      (status : TaskStatus) (text id host : String) (w : World)
      → IsQuiet now s w
      → status.state ≡ MesosTaskState.task_running
      → status.text ≡ some text
      → Inspected lib text id host ""
      → NodeList.get_node host s.node_list ≡ none
      → Dies (update lib status) w
  unfolding update task_started
  update-Dies status text id host w q runs told inspected unknown =
      subst (λ k. Dies (react lib k status) w) (sym runs)
        (Dies-Runs now (unwrap status.text) _ s s text [] w q
          (Runs-unwrap now status.text text s told)
          (λ w1 q1. Dies-bind (handle_inspect_data lib status.task_id text status.slave_id) _ w1 (
            handle_inspect_data-Dies status.task_id text status.slave_id id host w1 q1 inspected
              unknown)))
