-- ===== src/Collaborator/Commands/Calico.antt =====
-- The commands that src/collaborator/calico/client.rs sends, and to which nodes.
use torc_scheduler.Client.{Exec, pure, for_each, when}
use torc_scheduler.Client.Accepting.{
  Calls, Calls-pure, Calls-call_or_panic, Calls-then, Calls-if, Calls-for_each,
}
use torc_scheduler.Client.Quiet.{flat_map}
use torc_scheduler.Collaborator.{Effect, post}
use torc_scheduler.Collaborator.Commands.{
  Command, send_command_to_node, at_first_slave, configure_network, shutdown_network,
  command_address, is_slave, etcd_env, calico_ctl, docker_network,
}
use torc_scheduler.Prelude.{
  String, ◌≡◌, refl, List, [], ◌∷◌, ◌++◌, filter_by, if◌then◌else◌, Bool-cases, inl, inr, subst, ap,
}
use torc_scheduler.Records.{Node}

abbrev pub slaves : List Node → List Node
slaves nodes = filter_by is_slave nodes

-- What is asked of the first node only.
abbrev pub of_first : (Node → List Effect) → List Node → List Effect
of_first calls [] = []
of_first calls (node ∷ nodes) = calls node

module _ (encode : Command → String) where
  abbrev pub sent : Node → String → String → Effect
  sent node command env =
      post (command_address node.ip) (encode (record { cmd = command; env = env }))

  -- Every slave starts its node, and the first one makes the pool and the network.
  abbrev pub configured : List Node → List Effect
  configured nodes =
      flat_map (λ (v : Node). sent v (calico_ctl "node --libnetwork") etcd_env ∷ []) nodes
      ++ of_first
          (λ v.
            sent v (calico_ctl "pool add 192.168.0.0/16 --nat-outgoing") etcd_env
            ∷ sent v (docker_network "create --driver calico --ipam-driver calico") ""
            ∷ [])
          nodes

  -- Every slave stops and removes its node, and the first one removes the pool and the network.
  abbrev pub removed : List Node → List Effect
  removed nodes =
      flat_map
        (λ (v : Node).
          sent v (calico_ctl "node stop") etcd_env
          ∷ sent v (calico_ctl "node remove --remove-endpoints") etcd_env
          ∷ [])
        nodes
      ++ of_first
          (λ v.
            sent v (calico_ctl "pool remove 192.168.0.0/16") etcd_env
            ∷ sent v (docker_network "rm") ""
            ∷ [])
          nodes

  flat_map-slaves :
      (calls : Node → List Effect) (nodes : List Node)
      → flat_map (λ (v : Node). if is_slave v then calls v else []) nodes
        ≡ flat_map calls (slaves nodes)
  unfolding filter_by
  flat_map-slaves calls [] = refl
  flat_map-slaves calls (v ∷ nodes) = elim (Bool-cases (is_slave v)) [
    | inl e ↦ rw e (ap (λ l. calls v ++ l) (flat_map-slaves calls nodes))
    | inr e ↦ rw e (flat_map-slaves calls nodes)
  ]

  Calls-each_slave :
      (body : Node → Exec (Unit {0})) (calls : Node → List Effect)
      → ((v : Node) → Calls (body v) (calls v))
      → (nodes : List Node)
      → Calls
          (for_each (λ (v : Node). when (is_slave v) (body v)) nodes)
          (flat_map calls (slaves nodes))
  Calls-each_slave body calls step nodes = subst (Calls _) (flat_map-slaves calls nodes) (
      Calls-for_each _ _
        (λ (v : Node). Calls-if (is_slave v) (body v) (pure tt) (calls v) [] (step v) Calls-pure)
        nodes)

  Calls-at_first_slave :
      (body : Node → Exec (Unit {0})) (calls : Node → List Effect)
      → ((v : Node) → Calls (body v) (calls v))
      → (nodes : List Node)
      → Calls (at_first_slave encode body nodes) (of_first calls (slaves nodes))
  unfolding at_first_slave filter_by
  Calls-at_first_slave body calls step [] = Calls-pure
  Calls-at_first_slave body calls step (v ∷ nodes) = elim (Bool-cases (is_slave v)) [
    | inl e ↦ rw e (step v)
    | inr e ↦ rw e (Calls-at_first_slave body calls step nodes)
  ]

  Calls-send :
      (v : Node) (command env : String)
      → Calls (send_command_to_node encode v.ip command env) (sent v command env ∷ [])
  unfolding send_command_to_node
  Calls-send v command env = Calls-call_or_panic _

  -- If calls of other systems succeed, configuring the network starts the calico node on every
  -- slave, in order, then makes the address pool and the docker network on the first slave only,
  -- and sends nothing else.
  pub configure_network-Calls :
      (nodes : List Node) → Calls (configure_network encode nodes) (configured (slaves nodes))
  unfolding configure_network
  configure_network-Calls nodes =
      Calls-then _ _ _ _ (Calls-each_slave _ _ (λ v. Calls-send v _ _) nodes) (
        Calls-at_first_slave _ _ (λ v. Calls-then _ _ _ _ (Calls-send v _ _) (Calls-send v _ _))
          nodes)

  -- If calls of other systems succeed, shutting the network down stops and removes the calico node
  -- on every slave, in order, then removes the address pool and the docker network on the first
  -- slave only, and sends nothing else.
  pub shutdown_network-Calls :
      (nodes : List Node) → Calls (shutdown_network encode nodes) (removed (slaves nodes))
  unfolding shutdown_network
  shutdown_network-Calls nodes =
      Calls-then _ _ _ _
        (Calls-each_slave _ _ (λ v. Calls-then _ _ _ _ (Calls-send v _ _) (Calls-send v _ _)) nodes)
        (Calls-at_first_slave _ _ (λ v. Calls-then _ _ _ _ (Calls-send v _ _) (Calls-send v _ _))
          nodes)
