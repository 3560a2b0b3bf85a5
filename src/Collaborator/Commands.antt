-- ===== src/Collaborator/Commands.antt =====
-- src/collaborator/ipmi/client.rs and src/collaborator/calico/client.rs: commands that a proxy runs
-- on a node. `encode` is the JSON encoder of rustc_serialize. A post that fails, or an answer that
-- cannot be read, is a panic; an answer of another status is only printed.
pub mod Calico
use torc_scheduler.Client.{Exec, pure, ◌>>◌, call_or_panic, for_each, when}
use torc_scheduler.Collaborator.{post}
use torc_scheduler.Prelude.{String, Bool, List, [], ◌∷◌, concat, ◌==◌, if◌then◌else◌}
use torc_scheduler.Records.{Node}

pub record Command : Type 0 where
  pub cmd : String
  pub env : String

abbrev pub command_address : String → String
command_address ip = concat ("http://" ∷ ip ∷ ":8085/sync" ∷ [])

abbrev pub is_slave : Node → Bool
is_slave node = node.node_type == "slave"

abbrev pub etcd_env : String
etcd_env = "ETCD_AUTHORITY=etcd.service.torc:2379"

abbrev pub calico_ctl : String → String
calico_ctl command = concat ("/home/bladerunner/calicoctl" ∷ " " ∷ command ∷ [])

abbrev pub docker_network : String → String
docker_network command = concat ("docker network" ∷ " " ∷ command ∷ " " ∷ "torc" ∷ [])

module _ (encode : Command → String) where
  unfoldable pub send_command_to_node : String → String → String → Exec (Unit {0})
  send_command_to_node ip command env =
      call_or_panic (post (command_address ip) (encode (record { cmd = command; env = env })))

  -- The same for the ipmi proxy, without an environment.
  abbrev send_ipmi_command : String → String → Exec (Unit {0})
  send_ipmi_command ip command = send_command_to_node ip command ""

  unfoldable pub shutdown_node : String → String → Exec (Unit {0})
  shutdown_node proxy_ip node_ip =
      send_ipmi_command proxy_ip
        (concat ("ipmitool -H " ∷ node_ip ∷ " -I lanplus -U root -P root power off" ∷ []))

  unfoldable pub startup_node : String → String → Exec (Unit {0})
  startup_node proxy_ip node_ip =
      send_ipmi_command proxy_ip
        (concat ("ipmitool -H " ∷ node_ip ∷ " -I lanplus -U root -P root power on" ∷ []))

  -- The loop that ends with `break` at the first slave.
  unfoldable pub at_first_slave : (Node → Exec (Unit {0})) → List Node → Exec (Unit {0})
  at_first_slave body [] = pure tt
  at_first_slave body (node ∷ nodes) =
      let rest = at_first_slave body nodes in if is_slave node then body node else rest

  unfoldable pub configure_network : List Node → Exec (Unit {0})
  configure_network nodes =
      for_each
        (λ node.
          when (is_slave node)
            (send_command_to_node node.ip (calico_ctl "node --libnetwork") etcd_env))
        nodes
      >> at_first_slave
          (λ node.
            send_command_to_node node.ip (calico_ctl "pool add 192.168.0.0/16 --nat-outgoing")
              etcd_env
            >> send_command_to_node node.ip
                (docker_network "create --driver calico --ipam-driver calico") "")
          nodes

  unfoldable pub shutdown_network : List Node → Exec (Unit {0})
  shutdown_network nodes =
      for_each
        (λ node. when (is_slave node) (
          send_command_to_node node.ip (calico_ctl "node stop") etcd_env
          >> send_command_to_node node.ip (calico_ctl "node remove --remove-endpoints") etcd_env))
        nodes
      >> at_first_slave
          (λ node.
            send_command_to_node node.ip (calico_ctl "pool remove 192.168.0.0/16") etcd_env
            >> send_command_to_node node.ip (docker_network "rm") "")
          nodes
