-- ===== src/Discovery/Sensors.antt =====
-- `Sensors` of internal/hadiscovery/sensors.go: the catalog of a node.
pub mod Contract
pub mod Typing
use sparkwrangler.Base.{
  Bool, true, false, some, List, [], ◌∷◌, ◌++◌, map, if◌then◌else◌, Bytes, codes, Dict, insert,
}
use sparkwrangler.Discovery.Device.{Component}
use sparkwrangler.Discovery.Engine.{vllm_sensors}
use sparkwrangler.Discovery.Host.{host_sensors}

-- The closure `uid`.
abbrev pub uid : Bytes → Bytes → Bytes
uid node_id suffix = node_id ++ (codes "_" ++ suffix)

-- `components[id] = component` for the entries of another map.
insert_all : Dict Component → Dict Component → Dict Component
insert_all [] m = m
insert_all ((k, c) ∷ cs) m = insert_all cs (insert k c m)

-- The loop that sets `HasEntityName` on every component.
named_entities : Dict Component → Dict Component
named_entities m = map (λ e. (e.0, record e.1 { has_entity_name = some true })) m

unfoldable pub sensors : Bytes → Bool → Dict Component
unfolding insert_all insert named_entities vllm_sensors host_sensors
sensors node_id with_vllm =
    let components = host_sensors (uid node_id) in
    named_entities
      (if with_vllm then insert_all (vllm_sensors (uid node_id)) components else components)
