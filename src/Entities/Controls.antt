-- ===== src/Entities/Controls.antt =====
-- entities.go: covers, fans and lights. Their records, the entity that a listing message makes, and the update by
-- a state message.
use esphome_apiclient.Common.{String, Bool, false, List}
use esphome_apiclient.Pb.Types.{Enum, Float32, Int32, UInt32}
use esphome_apiclient.Pb.Listing.{
  ListEntitiesCoverResponse, ListEntitiesFanResponse, ListEntitiesLightResponse,
}
use esphome_apiclient.Pb.States.{CoverStateResponse, FanStateResponse, LightStateResponse}

pub record CoverEntity : Type 0 where
  pub key : UInt32
  pub object_id : String
  pub name : String
  pub icon : String
  pub assumed_state : Bool
  pub supports_position : Bool
  pub supports_tilt : Bool
  pub supports_stop : Bool
  pub device_class : String
  pub disabled_by_default : Bool
  pub entity_category : Enum
  pub device_id : UInt32
  pub position : Float32
  pub tilt : Float32
  pub current_operation : Enum

-- The entity that a ListEntitiesCoverResponse makes; what it does not name is zero.
unfoldable pub cover_entity : ListEntitiesCoverResponse → CoverEntity
cover_entity m = record {
  key = m.key;
  object_id = m.object_id;
  name = m.name;
  icon = m.icon;
  assumed_state = m.assumed_state;
  supports_position = m.supports_position;
  supports_tilt = m.supports_tilt;
  supports_stop = m.supports_stop;
  device_class = m.device_class;
  disabled_by_default = m.disabled_by_default;
  entity_category = m.entity_category;
  device_id = m.device_id;
  position = 0;
  tilt = 0;
  current_operation = 0;
}

unfoldable pub update_cover : CoverStateResponse → CoverEntity → CoverEntity
update_cover m e = record e {
  position = m.position;
  tilt = m.tilt;
  current_operation = m.current_operation;
}

pub record FanEntity : Type 0 where
  pub key : UInt32
  pub object_id : String
  pub name : String
  pub icon : String
  pub supports_oscillation : Bool
  pub supports_speed : Bool
  pub supports_direction : Bool
  pub supported_speed_count : Int32
  pub supported_preset_modes : List String
  pub disabled_by_default : Bool
  pub entity_category : Enum
  pub device_id : UInt32
  pub state : Bool
  pub oscillating : Bool
  pub direction : Enum
  pub speed_level : Int32
  pub preset_mode : String

-- The entity that a ListEntitiesFanResponse makes; what it does not name is zero.
unfoldable pub fan_entity : ListEntitiesFanResponse → FanEntity
fan_entity m = record {
  key = m.key;
  object_id = m.object_id;
  name = m.name;
  icon = m.icon;
  supports_oscillation = m.supports_oscillation;
  supports_speed = m.supports_speed;
  supports_direction = m.supports_direction;
  supported_speed_count = m.supported_speed_count;
  supported_preset_modes = m.supported_preset_modes;
  disabled_by_default = m.disabled_by_default;
  entity_category = m.entity_category;
  device_id = m.device_id;
  state = false;
  oscillating = false;
  direction = 0;
  speed_level = 0;
  preset_mode = "";
}

unfoldable pub update_fan : FanStateResponse → FanEntity → FanEntity
update_fan m e = record e {
  state = m.state;
  oscillating = m.oscillating;
  direction = m.direction;
  speed_level = m.speed_level;
  preset_mode = m.preset_mode;
}

pub record LightEntity : Type 0 where
  pub key : UInt32
  pub object_id : String
  pub name : String
  pub icon : String
  pub supported_color_modes : List Enum
  pub min_mireds : Float32
  pub max_mireds : Float32
  pub effects : List String
  pub disabled_by_default : Bool
  pub entity_category : Enum
  pub device_id : UInt32
  pub state : Bool
  pub brightness : Float32
  pub color_mode : Enum
  pub color_brightness : Float32
  pub red : Float32
  pub green : Float32
  pub blue : Float32
  pub white : Float32
  pub color_temperature : Float32
  pub cold_white : Float32
  pub warm_white : Float32
  pub effect : String

-- The entity that a ListEntitiesLightResponse makes; what it does not name is zero.
unfoldable pub light_entity : ListEntitiesLightResponse → LightEntity
light_entity m = record {
  key = m.key;
  object_id = m.object_id;
  name = m.name;
  icon = m.icon;
  supported_color_modes = m.supported_color_modes;
  min_mireds = m.min_mireds;
  max_mireds = m.max_mireds;
  effects = m.effects;
  disabled_by_default = m.disabled_by_default;
  entity_category = m.entity_category;
  device_id = m.device_id;
  state = false;
  brightness = 0;
  color_mode = 0;
  color_brightness = 0;
  red = 0;
  green = 0;
  blue = 0;
  white = 0;
  color_temperature = 0;
  cold_white = 0;
  warm_white = 0;
  effect = "";
}

unfoldable pub update_light : LightStateResponse → LightEntity → LightEntity
update_light m e = record e {
  state = m.state;
  brightness = m.brightness;
  color_mode = m.color_mode;
  color_brightness = m.color_brightness;
  red = m.red;
  green = m.green;
  blue = m.blue;
  white = m.white;
  color_temperature = m.color_temperature;
  cold_white = m.cold_white;
  warm_white = m.warm_white;
  effect = m.effect;
}
