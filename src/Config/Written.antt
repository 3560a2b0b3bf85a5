-- ===== src/Config/Written.antt =====
-- A service written out as YAML, and what src/utils/config.rs reads of it.
use torc_scheduler.Client.StateManager.{TaskConfig}
use torc_scheduler.Config.{
  YamlLibrary, optional, read_string, read_string_replace_variable, read_bool, read_float,
  read_volume, read_volumes_for_service, read_sla, read_task, with_master_ip, sla_of,
}
use torc_scheduler.HashMap.{HashMap, get}
use torc_scheduler.Machine.F64.{F64, is_finite, default_memory, default_cpu}
use torc_scheduler.Prelude.{
  String, ◌≡◌, refl, sym, ap, ◌∙◌, Bool, true, false, Option, some, List, [], ◌∷◌, map,
  if◌then◌else◌,
}
use torc_scheduler.Prelude.Panic.{◌>>=◌, for_all, >>=-some}
use torc_scheduler.Prelude.Replacing.{join_with, AllLack, same_code, replace-join_with}
use torc_scheduler.Records.{Sla, Volume}
use torc_scheduler.Config.Values.{YamlValues, is_distinct}

-- The word for a placement, as a configuration spells it.
abbrev pub sla_word : Sla → String
sla_word Sla.no_sla = "none"
sla_word Sla.singleton_each_node = "singleton_each_node"
sla_word Sla.singleton_each_slave = "singleton_each_slave"

module _ (lib : YamlLibrary) (y : YamlValues lib) where
  open y use {string, boolean, real, array, hash}

  abbrev pub write_volume : Volume → lib.Yaml
  write_volume v = hash (
      ("host_path", string v.host_path)
      ∷ ("container_path", string v.container_path)
      ∷ ("read_only_mode", boolean v.read_only_mode)
      ∷ [])

  -- The service with its texts for `arguments` and `parameters`.
  abbrev pub fields : TaskConfig → String → String → HashMap lib.Yaml
  fields t arguments parameters =
      ("name", string t.name)
      ∷ ("image_name", string t.image)
      ∷ ("node_name", string t.node_name)
      ∷ ("node_type", string t.node_type)
      ∷ ("node_function", string t.node_function)
      ∷ ("dependent_service", string t.dependent_service)
      ∷ ("arguments", string arguments)
      ∷ ("parameters", string parameters)
      ∷ ("memory", real t.memory)
      ∷ ("cpu", real t.cpu)
      ∷ ("volumes", array (map write_volume t.volumes))
      ∷ ("privileged", boolean t.privileged)
      ∷ ("sla", string (sla_word t.sla))
      ∷ ("is_metered", boolean t.is_metered)
      ∷ ("is_job", boolean t.is_job)
      ∷ ("network_type", string t.network_type)
      ∷ []

  abbrev pub write_task : TaskConfig → String → String → lib.Yaml
  write_task t arguments parameters = hash (fields t arguments parameters)

  sla_of-sla_word : (s : Sla) → sla_of (sla_word s) ≡ s
  sla_of-sla_word Sla.no_sla = refl
  sla_of-sla_word Sla.singleton_each_node = refl
  sla_of-sla_word Sla.singleton_each_slave = refl

  read_volume-write_volume : (v : Volume) → read_volume lib (write_volume v) ≡ some v
  unfolding read_volume get
  read_volume-write_volume v =
      >>=-some _ _ v.host_path _
        (ap lib.as_str (y.index-hash "host_path" _ _ refl refl) ∙ y.as_str-string v.host_path)
        (>>=-some _ _ v.container_path _
          (ap lib.as_str (y.index-hash "container_path" _ _ refl refl)
            ∙ y.as_str-string v.container_path)
          (>>=-some _ _ v.read_only_mode _
            (ap lib.as_bool (y.index-hash "read_only_mode" _ _ refl refl)
              ∙ y.as_bool-boolean v.read_only_mode)
            refl))

  read_volumes : (vs : List Volume) → for_all (read_volume lib) (map write_volume vs) ≡ some vs
  unfolding for_all
  read_volumes [] = refl
  read_volumes (v ∷ vs) = rw (read_volume-write_volume v, read_volumes vs) refl

  -- A value that is there is read.
  optional_present :
      {A : Type 0} (read : lib.Yaml → Option A) (missing : A) (v w : lib.Yaml) (a : A)
      → w ≡ v
      → lib.is_badvalue v ≡ false
      → read v ≡ some a
      → optional lib read missing w ≡ some a
  optional_present read missing v w a same there e =
      ap (optional lib read missing) same ∙ ap (λ b. if b then some missing else read v) there ∙ e

  module _ (m : HashMap lib.Yaml) (once : is_distinct m ≡ true) where
    name_at :
        (k s : String) → get k m ≡ some (string s) → lib.as_str (lib.index (hash m) k) ≡ some s
    name_at k s at = ap lib.as_str (y.index-hash k (string s) m once at) ∙ y.as_str-string s

    string_at : (k s : String) → get k m ≡ some (string s) → read_string lib (hash m) k ≡ some s
    unfolding read_string
    string_at k s at =
        optional_present lib.as_str "" (string s) _ s (y.index-hash k (string s) m once at)
          (y.string_present s) (y.as_str-string s)

    bool_at :
        (k : String) (b : Bool) → get k m ≡ some (boolean b) → read_bool lib (hash m) k ≡ some b
    unfolding read_bool
    bool_at k b at =
        optional_present lib.as_bool false (boolean b) _ b (y.index-hash k (boolean b) m once at)
          (y.boolean_present b) (y.as_bool-boolean b)

    float_at :
        (k : String) (x missing : F64)
        → is_finite x ≡ true
        → get k m ≡ some (real x)
        → read_float lib (hash m) k missing ≡ some x
    unfolding read_float
    float_at k x missing finite at =
        optional_present lib.as_f64 missing (real x) _ x (y.index-hash k (real x) m once at)
          (y.real_present x) (y.as_f64-real x finite)

    text_at :
        (master_ip k s : String)
        → get k m ≡ some (string s)
        → read_string_replace_variable lib master_ip (hash m) k ≡ some (with_master_ip master_ip s)
    unfolding read_string_replace_variable
    text_at master_ip k s at =
        >>=-some _ _ s _
          (optional_present lib.as_str "" (string s) _ s (y.index-hash k (string s) m once at)
            (y.string_present s) (y.as_str-string s))
          refl

    sla_at : (s : Sla) → get "sla" m ≡ some (string (sla_word s)) → read_sla lib (hash m) ≡ some s
    unfolding read_sla
    sla_at s at =
        optional_present (λ v. lib.as_str v >>= λ text. some (sla_of text)) Sla.no_sla
          (string (sla_word s)) _ s (y.index-hash "sla" (string (sla_word s)) m once at)
          (y.string_present (sla_word s))
          (>>=-some _ (λ text. some (sla_of text)) (sla_word s) _ (y.as_str-string (sla_word s))
            (ap some (sla_of-sla_word s)))

    volumes_at :
        (vs : List Volume)
        → get "volumes" m ≡ some (array (map write_volume vs))
        → read_volumes_for_service lib (hash m) ≡ some vs
    unfolding read_volumes_for_service
    volumes_at vs at =
        optional_present (λ v. lib.as_vec v >>= for_all (read_volume lib)) []
          (array (map write_volume vs)) _ vs
          (y.index-hash "volumes" (array (map write_volume vs)) m once at)
          (y.array_present (map write_volume vs))
          (>>=-some _ (for_all (read_volume lib)) (map write_volume vs) _
            (y.as_vec-array (map write_volume vs)) (read_volumes vs))

  -- The texts between the variables, with the address in the variables' places.
  expanded :
      (master_ip text : String) (pieces : List String)
      → AllLack (same_code b'$') pieces
      → text ≡ join_with master_ip pieces
      → some (with_master_ip master_ip (join_with "$MASTER_IP" pieces)) ≡ some text
  expanded master_ip text pieces lack same =
      ap some (replace-join_with "$" "MASTER_IP" master_ip pieces lack ∙ sym same)

  -- For a YAML library that reads back what stands in a value, finite numbers among them: a service
  -- whose memory and cpu are finite, written out field by field, with $MASTER_IP in its arguments
  -- and parameters wherever the master's address stood between texts without '$', is read as that
  -- service.
  pub read_task-write_task :
      (master_ip : String) (t : TaskConfig) (arguments parameters : List String)
      → is_finite t.memory ≡ true
      → is_finite t.cpu ≡ true
      → AllLack (same_code b'$') arguments
      → AllLack (same_code b'$') parameters
      → t.arguments ≡ join_with master_ip arguments
      → t.parameters ≡ join_with master_ip parameters
      → read_task lib master_ip
          (write_task t (join_with "$MASTER_IP" arguments) (join_with "$MASTER_IP" parameters))
        ≡ some t
  unfolding read_task get
  read_task-write_task master_ip t arguments parameters finite_m finite_c no_a no_p are_a are_p =
      let m : HashMap lib.Yaml =
        fields t (join_with "$MASTER_IP" arguments) (join_with "$MASTER_IP" parameters) in
      >>=-some _ _ t.name _ (name_at m refl "name" t.name refl) (
        >>=-some _ _ t.image _ (name_at m refl "image_name" t.image refl) (
          >>=-some _ _ t.node_name _ (string_at m refl "node_name" t.node_name refl) (
            >>=-some _ _ t.node_type _ (string_at m refl "node_type" t.node_type refl) (
              >>=-some _ _ t.node_function _ (string_at m refl "node_function" t.node_function refl)
                (>>=-some _ _ t.dependent_service _
                  (string_at m refl "dependent_service" t.dependent_service refl)
                  (>>=-some _ _ t.arguments _
                    (text_at m refl master_ip "arguments" (join_with "$MASTER_IP" arguments) refl
                      ∙ expanded master_ip t.arguments arguments no_a are_a)
                    (>>=-some _ _ t.parameters _
                      (text_at m refl master_ip "parameters" (join_with "$MASTER_IP" parameters)
                          refl
                        ∙ expanded master_ip t.parameters parameters no_p are_p)
                      (>>=-some _ _ t.memory _
                        (float_at m refl "memory" t.memory default_memory finite_m refl)
                        (>>=-some _ _ t.cpu _
                          (float_at m refl "cpu" t.cpu default_cpu finite_c refl)
                          (>>=-some _ _ t.volumes _ (volumes_at m refl t.volumes refl) (
                            >>=-some _ _ t.privileged _
                              (bool_at m refl "privileged" t.privileged refl)
                              (>>=-some _ _ t.sla _ (sla_at m refl t.sla refl) (
                                >>=-some _ _ t.is_metered _
                                  (bool_at m refl "is_metered" t.is_metered refl)
                                  (>>=-some _ _ t.is_job _ (bool_at m refl "is_job" t.is_job refl) (
                                    >>=-some _ _ t.network_type _
                                      (name_at m refl "network_type" t.network_type refl)
                                      (refl))))))))))))))))
