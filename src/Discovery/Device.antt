-- ===== src/Discovery/Device.antt =====
-- internal/hadiscovery/device.go: the records of the discovery message, and the topics.
use sparkwrangler.Base.Int.{ℤ}
use sparkwrangler.Base.{Bool, Option, List, Bytes, ◌++◌, codes, Dict}

pub record Device : Type 0 where
  pub identifiers : List Bytes
  -- pairs of a type and an identifier
  pub connections : List (Bytes × Bytes)
  pub name : Bytes
  pub manufacturer : Bytes
  pub model : Bytes
  pub model_id : Bytes
  pub sw_version : Bytes
  pub hw_version : Bytes
  pub serial_number : Bytes
  pub suggested_area : Bytes
  pub config_url : Bytes

pub record Origin : Type 0 where
  pub name : Bytes
  pub sw_version : Bytes
  pub support_url : Bytes

pub record Component : Type 0 where
  pub platform : Bytes
  pub name : Bytes
  pub has_entity_name : Option Bool
  pub unique_id : Bytes
  pub value_template : Bytes
  pub device_class : Bytes
  pub state_class : Bytes
  pub unit_of_measurement : Bytes
  pub icon : Bytes
  pub entity_category : Bytes
  pub display_precision : Option ℤ
  pub payload_on : Bytes
  pub payload_off : Bytes
  pub enabled_by_default : Option Bool

pub record Config : Type 0 where
  pub device : Device
  pub origin : Origin
  pub components : Dict Component
  pub state_topic : Bytes
  pub availability_topic : Bytes
  pub payload_available : Bytes
  pub payload_not_avail : Bytes
  pub qos : ℤ

unfoldable pub discovery_topic : Bytes → Bytes → Bytes
discovery_topic prefix node_id = prefix ++ (codes "/device/" ++ (node_id ++ codes "/config"))

unfoldable pub state_topic : Bytes → Bytes → Bytes
state_topic prefix node_id = prefix ++ (codes "/" ++ (node_id ++ codes "/state"))

unfoldable pub availability_topic : Bytes → Bytes → Bytes
availability_topic prefix node_id = prefix ++ (codes "/" ++ (node_id ++ codes "/availability"))
