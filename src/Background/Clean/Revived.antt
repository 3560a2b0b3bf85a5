-- ===== src/Background/Clean/Revived.antt =====
-- A node that an offer brings back, in the next round of the cleaning thread.
use torc_scheduler.Background.{CleanConfig, clean_round, is_overdue}
use torc_scheduler.Background.Clean.{deleted_routes}
use torc_scheduler.Background.Clean.Outcome.{cleaned_node, clean_round_lem}
use torc_scheduler.Client.{◌>>◌}
use torc_scheduler.Client.Quiet.{Runs, Runs-bind, Runs-request}
use torc_scheduler.Client.StateManager.{StateManager, send_update_node}
use torc_scheduler.NodeList
use torc_scheduler.NodeList.{as_active, as_inactive}
use torc_scheduler.NodeList.View as NodeView
use mathlib.Core.Option
use torc_scheduler.Prelude.{String, ◌≡◌, refl, ap, ◌∙◌, true, some, [], eq_refl, if◌then◌else◌}
use torc_scheduler.Prelude.Int.{ℤ}
use torc_scheduler.Records.{Node}
use torc_scheduler.Server.{State, StateRequestMsg}
use torc_scheduler.Server.Handlers
use torc_scheduler.Server.Serve.{dispatch}
use torc_scheduler.Server.Validity.{IsValid}

abbrev pub with_updated : String → String → String → String → State → State
with_updated n type function slave s = record s {
  node_list = NodeList.update_node n type function slave s.node_list;
}

-- From a valid state and in a quiet environment: updating a node that was last seen longer ago than
-- the timeout makes it active but leaves that time, so a cleaning round that follows at once sets
-- it inactive again.
pub revived_node_is_dropped :
    (sm : StateManager) (c : CleanConfig) (now : ℤ) (s : State) (v : Node)
    (n type function slave : String)
    → IsValid s
    → NodeList.get_node n s.node_list ≡ some v
    → is_overdue v.last_seen c.timeout now ≡ true
    → (s' : State) × Runs now
        (send_update_node n type function slave >> clean_round sm c)
        s
        tt
        (deleted_routes sm c now s)
        s'
      × (NodeList.get_node n s'.node_list ≡ some (as_inactive (as_active type function slave v)))
unfolding send_update_node dispatch Handlers.handle_update_node
revived_node_is_dropped sm c now s v n type function slave h stored overdue =
    let s1 = with_updated n type function slave s in
    let revived : NodeList.get_node n s1.node_list ≡ some (as_active type function slave v) =
      NodeView.get_node-update_node s.node_list n n type function slave
      ∙ ap
          (λ b.
            if b
            then Option.map (as_active type function slave) (NodeList.get_node n s.node_list)
            else NodeList.get_node n s.node_list)
          (eq_refl n)
      ∙ ap (Option.map (as_active type function slave)) stored in
    let h1 : IsValid s1 = record {
      tasks = h.tasks;
      nodes = NodeView.update_node-IsValid s.node_list h.nodes n type function slave;
    } in
    let (s', runs, shown) = clean_round_lem sm c now s1 h1 in
    (
      s',
      Runs-bind now (send_update_node n type function slave) (λ _. clean_round sm c) s s1 s' tt tt
          [] (deleted_routes sm c now s)
          (Runs-request now (λ _. tt) (StateRequestMsg.update_node n type function slave) s _ refl)
          runs,
      shown.1 n ∙ ap (cleaned_node sm c now) revived ∙ rw overdue refl,
    )
