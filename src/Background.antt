-- ===== src/Background.antt =====
-- One round of each of the two background threads of src/state/state.rs: `start_syncing` registers
-- and announces what runs, `start_cleaning` drops what has not been heard of. The threads repeat
-- their round for ever, with a pause that is not modelled.
pub mod Overflow
pub mod Cleaned
pub mod Clean
pub mod Sync
pub mod Known
use torc_scheduler.Client.{Exec, pure, ◌>>=◌, ◌>>◌, read_clock, emit, for_each, when}
use torc_scheduler.Client.StateManager.{
  StateManager, request_list_running_tasks, request_list_restart_tasks, request_list_nodes,
  send_announce_task, send_remove_task_by_name, send_update_task_state, send_set_node_inactive,
}
use torc_scheduler.Collaborator.Consul.{register_running_task}
use torc_scheduler.Collaborator.NetworkAgent.{delete_route}
use torc_scheduler.Machine.I64.{add_i64}
use torc_scheduler.Prelude.{String, Bool, not, ◌==◌, if◌then◌else◌}
use torc_scheduler.Prelude.Int.{ℤ, ltb_ℤ}
use torc_scheduler.Records.{Task, TaskState, Node}

-- `timeout_in_seconds` and `restart_delay_in_seconds` of the configuration.
pub record CleanConfig : Type 0 where
  pub timeout : ℤ
  pub restart_delay : ℤ

unfoldable pub sync_task : StateManager → Task → Exec (Unit {0})
sync_task sm task = do
  emit (register_running_task sm.master_ip task)
  when (task.controller == sm.my_name) (send_announce_task sm task)

unfoldable pub sync_round : StateManager → Exec (Unit {0})
unfolding sync_task
sync_round sm = do tasks ← request_list_running_tasks; for_each (sync_task sm) tasks

-- `(stamp + delay) < now`, on `i64`.
abbrev pub is_overdue : ℤ → ℤ → ℤ → Bool
is_overdue stamp delay now = ltb_ℤ (add_i64 stamp delay) now

unfoldable pub clean_task : StateManager → CleanConfig → Task → Exec (Unit {0})
clean_task sm c task = if task.controller == sm.my_name then pure tt else do
  now ← read_clock
  when (is_overdue task.last_update c.timeout now) do
    send_remove_task_by_name task.name
    emit (delete_route sm.network_agent_type sm.network_agent_connection task.ip)

unfoldable pub restart_task : StateManager → CleanConfig → Task → Exec (Unit {0})
restart_task sm c task = if not (task.controller == sm.my_name) then pure tt else do
  now ← read_clock
  when (is_overdue task.last_update c.restart_delay now)
      (send_update_task_state task.name TaskState.requested)

unfoldable pub clean_node : CleanConfig → Node → Exec (Unit {0})
clean_node c node = if not node.active then pure tt else do
  now ← read_clock
  when (is_overdue node.last_seen c.timeout now) (send_set_node_inactive node.name)

unfoldable pub clean_round : StateManager → CleanConfig → Exec (Unit {0})
clean_round sm c = do
  running ← request_list_running_tasks
  for_each (clean_task sm c) running
  waiting ← request_list_restart_tasks
  for_each (restart_task sm c) waiting
  nodes ← request_list_nodes
  for_each (clean_node c) nodes
