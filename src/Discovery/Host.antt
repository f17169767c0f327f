-- ===== src/Discovery/Host.antt =====
-- The components of every node: `hostSensors` of internal/hadiscovery/sensors.go.
use sparkwrangler.Base.Int.{pos}
use sparkwrangler.Base.{false, some, [], ◌∷◌, Bytes, codes, Dict}
use sparkwrangler.Discovery.Device.{Component}
use sparkwrangler.Discovery.Templates.{optional, no_component}

gpu_utilization : (Bytes → Bytes) → Component
gpu_utilization uid = record no_component {
  platform = codes "sensor";
  name = codes "GPU utilisation";
  unique_id = uid (codes "gpu_utilization");
  value_template = optional (codes "gpu_utilization_pct");
  unit_of_measurement = codes "%";
  state_class = codes "measurement";
  icon = codes "mdi:chip";
}

gpu_clock : (Bytes → Bytes) → Component
gpu_clock uid = record no_component {
  platform = codes "sensor";
  name = codes "GPU clock";
  unique_id = uid (codes "gpu_clock");
  value_template = optional (codes "gpu_clock_mhz");
  device_class = codes "frequency";
  unit_of_measurement = codes "MHz";
  state_class = codes "measurement";
}

gpu_temperature : (Bytes → Bytes) → Component
gpu_temperature uid = record no_component {
  platform = codes "sensor";
  name = codes "GPU temperature";
  unique_id = uid (codes "gpu_temperature");
  value_template = optional (codes "gpu_temperature_c");
  device_class = codes "temperature";
  unit_of_measurement = 0xc2 ∷ 0xb0 ∷ b'C' ∷ [];
  state_class = codes "measurement";
}

gpu_power : (Bytes → Bytes) → Component
gpu_power uid = record no_component {
  platform = codes "sensor";
  name = codes "GPU rail power";
  unique_id = uid (codes "gpu_power");
  value_template = optional (codes "gpu_power_w");
  device_class = codes "power";
  unit_of_measurement = codes "W";
  state_class = codes "measurement";
}

memory_available : (Bytes → Bytes) → Component
memory_available uid = record no_component {
  platform = codes "sensor";
  name = codes "Memory available";
  unique_id = uid (codes "memory_available");
  value_template = optional (codes "memory_available_bytes");
  device_class = codes "data_size";
  unit_of_measurement = codes "B";
  state_class = codes "measurement";
  icon = codes "mdi:memory";
}

memory_used : (Bytes → Bytes) → Component
memory_used uid = record no_component {
  platform = codes "sensor";
  name = codes "Memory used";
  unique_id = uid (codes "memory_used");
  value_template = optional (codes "memory_used_pct");
  unit_of_measurement = codes "%";
  state_class = codes "measurement";
  display_precision = some (pos 1);
  icon = codes "mdi:memory";
}

mac_address : (Bytes → Bytes) → Component
mac_address uid = record no_component {
  platform = codes "sensor";
  name = codes "MAC address";
  unique_id = uid (codes "mac_address");
  value_template = optional (codes "mac_address");
  entity_category = codes "diagnostic";
  icon = codes "mdi:ethernet";
}

last_seen : (Bytes → Bytes) → Component
last_seen uid = record no_component {
  platform = codes "sensor";
  name = codes "Last seen";
  unique_id = uid (codes "last_seen");
  value_template = optional (codes "last_seen");
  device_class = codes "timestamp";
  entity_category = codes "diagnostic";
  enabled_by_default = some false;
}

unfoldable pub host_sensors : (Bytes → Bytes) → Dict Component
unfolding gpu_utilization gpu_clock gpu_temperature gpu_power memory_available memory_used
    mac_address last_seen
host_sensors uid =
    (codes "gpu_utilization", gpu_utilization uid)
    ∷ (codes "gpu_clock", gpu_clock uid)
    ∷ (codes "gpu_temperature", gpu_temperature uid)
    ∷ (codes "gpu_power", gpu_power uid)
    ∷ (codes "memory_available", memory_available uid)
    ∷ (codes "memory_used", memory_used uid)
    ∷ (codes "mac_address", mac_address uid)
    ∷ (codes "last_seen", last_seen uid)
    ∷ []
