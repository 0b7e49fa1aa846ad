-- ===== src/Entities/Climate.antt =====
-- entities.go: climate devices. Their records, the entity that a listing message makes, and the update by
-- a state message.
use esphome_apiclient.Common.{String, Bool, List}
use esphome_apiclient.Pb.Types.{Enum, Float32, UInt32}
use esphome_apiclient.Pb.Listing.{ListEntitiesClimateResponse}
use esphome_apiclient.Pb.States.{ClimateStateResponse}

pub record ClimateEntity : Type 0 where
  pub key : UInt32
  pub object_id : String
  pub name : String
  pub icon : String
  pub supports_current_temperature : Bool
  pub supports_two_point_target_temperature : Bool
  pub supported_modes : List Enum
  pub visual_min_temperature : Float32
  pub visual_max_temperature : Float32
  pub visual_target_temperature_step : Float32
  pub visual_current_temperature_step : Float32
  pub supports_action : Bool
  pub supported_fan_modes : List Enum
  pub supported_swing_modes : List Enum
  pub supported_custom_fan_modes : List String
  pub supported_presets : List Enum
  pub supported_custom_presets : List String
  pub supports_current_humidity : Bool
  pub supports_target_humidity : Bool
  pub visual_min_humidity : Float32
  pub visual_max_humidity : Float32
  pub disabled_by_default : Bool
  pub entity_category : Enum
  pub device_id : UInt32
  pub mode : Enum
  pub current_temperature : Float32
  pub target_temperature : Float32
  pub target_temperature_low : Float32
  pub target_temperature_high : Float32
  pub action : Enum
  pub fan_mode : Enum
  pub swing_mode : Enum
  pub custom_fan_mode : String
  pub preset : Enum
  pub custom_preset : String
  pub current_humidity : Float32
  pub target_humidity : Float32

-- The entity that a ListEntitiesClimateResponse makes; what it does not name is zero.
unfoldable pub climate_entity : ListEntitiesClimateResponse → ClimateEntity
climate_entity m = record {
  key = m.key;
  object_id = m.object_id;
  name = m.name;
  icon = m.icon;
  supports_current_temperature = m.supports_current_temperature;
  supports_two_point_target_temperature = m.supports_two_point_target_temperature;
  supported_modes = m.supported_modes;
  visual_min_temperature = m.visual_min_temperature;
  visual_max_temperature = m.visual_max_temperature;
  visual_target_temperature_step = m.visual_target_temperature_step;
  visual_current_temperature_step = m.visual_current_temperature_step;
  supports_action = m.supports_action;
  supported_fan_modes = m.supported_fan_modes;
  supported_swing_modes = m.supported_swing_modes;
  supported_custom_fan_modes = m.supported_custom_fan_modes;
  supported_presets = m.supported_presets;
  supported_custom_presets = m.supported_custom_presets;
  supports_current_humidity = m.supports_current_humidity;
  supports_target_humidity = m.supports_target_humidity;
  visual_min_humidity = m.visual_min_humidity;
  visual_max_humidity = m.visual_max_humidity;
  disabled_by_default = m.disabled_by_default;
  entity_category = m.entity_category;
  device_id = m.device_id;
  mode = 0;
  current_temperature = 0;
  target_temperature = 0;
  target_temperature_low = 0;
  target_temperature_high = 0;
  action = 0;
  fan_mode = 0;
  swing_mode = 0;
  custom_fan_mode = "";
  preset = 0;
  custom_preset = "";
  current_humidity = 0;
  target_humidity = 0;
}

unfoldable pub update_climate : ClimateStateResponse → ClimateEntity → ClimateEntity
update_climate m e = record e {
  mode = m.mode;
  current_temperature = m.current_temperature;
  target_temperature = m.target_temperature;
  target_temperature_low = m.target_temperature_low;
  target_temperature_high = m.target_temperature_high;
  action = m.action;
  fan_mode = m.fan_mode;
  swing_mode = m.swing_mode;
  custom_fan_mode = m.custom_fan_mode;
  preset = m.preset;
  custom_preset = m.custom_preset;
  current_humidity = m.current_humidity;
  target_humidity = m.target_humidity;
}
