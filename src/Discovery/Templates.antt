-- ===== src/Discovery/Templates.antt =====
-- The templates of internal/hadiscovery/sensors.go, which read a member of the state document.
use sparkwrangler.Base.{none, [], ◌++◌, Bytes, codes}
use sparkwrangler.Discovery.Device.{Component}

-- `Version`
abbrev pub version : Bytes
version = codes "0.1.0"

unfoldable pub optional_binary : Bytes → Bytes
optional_binary key =
    codes "{{ None if value_json."
    ++ (key
        ++ (codes " is not defined else ('ON' if value_json." ++ (key ++ codes " else 'OFF') }}")))

unfoldable pub optional : Bytes → Bytes
optional key = codes "{{ value_json." ++ (key ++ codes " | default(None) }}")

-- The zero value of `Component`, which each literal of the catalog fills in part.
abbrev pub no_component : Component
no_component = record {
  platform = [];
  name = [];
  has_entity_name = none;
  unique_id = [];
  value_template = [];
  device_class = [];
  state_class = [];
  unit_of_measurement = [];
  icon = [];
  entity_category = [];
  display_precision = none;
  payload_on = [];
  payload_off = [];
  enabled_by_default = none;
}
