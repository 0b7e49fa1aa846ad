-- ===== src/Entities/Devices.antt =====
-- entities.go: sirens, media players and water heaters. Their records, the entity that a listing message makes, and the update by
-- a state message.
use esphome_apiclient.Common.{String, Bool, false, List}
use esphome_apiclient.Pb.Types.{Enum, Float32, UInt32}
use esphome_apiclient.Pb.Listing.{
  ListEntitiesSirenResponse, ListEntitiesMediaPlayerResponse, ListEntitiesWaterHeaterResponse,
}
use esphome_apiclient.Pb.States.{
  SirenStateResponse, MediaPlayerStateResponse, WaterHeaterStateResponse,
}

pub record SirenEntity : Type 0 where
  pub key : UInt32
  pub object_id : String
  pub name : String
  pub icon : String
  pub tones : List String
  pub supports_duration : Bool
  pub supports_volume : Bool
  pub disabled_by_default : Bool
  pub entity_category : Enum
  pub device_id : UInt32
  pub state : Bool

-- The entity that a ListEntitiesSirenResponse makes; what it does not name is zero.
unfoldable pub siren_entity : ListEntitiesSirenResponse → SirenEntity
siren_entity m = record {
  key = m.key;
  object_id = m.object_id;
  name = m.name;
  icon = m.icon;
  tones = m.tones;
  supports_duration = m.supports_duration;
  supports_volume = m.supports_volume;
  disabled_by_default = m.disabled_by_default;
  entity_category = m.entity_category;
  device_id = m.device_id;
  state = false;
}

unfoldable pub update_siren : SirenStateResponse → SirenEntity → SirenEntity
update_siren m e = record e { state = m.state }

pub record MediaPlayerEntity : Type 0 where
  pub key : UInt32
  pub object_id : String
  pub name : String
  pub icon : String
  pub supports_pause : Bool
  pub disabled_by_default : Bool
  pub entity_category : Enum
  pub device_id : UInt32
  pub state : Enum
  pub volume : Float32
  pub muted : Bool

-- The entity that a ListEntitiesMediaPlayerResponse makes; what it does not name is zero.
unfoldable pub media_player_entity : ListEntitiesMediaPlayerResponse → MediaPlayerEntity
media_player_entity m = record {
  key = m.key;
  object_id = m.object_id;
  name = m.name;
  icon = m.icon;
  supports_pause = m.supports_pause;
  disabled_by_default = m.disabled_by_default;
  entity_category = m.entity_category;
  device_id = m.device_id;
  state = 0;
  volume = 0;
  muted = false;
}

unfoldable pub update_media_player :
    MediaPlayerStateResponse → MediaPlayerEntity → MediaPlayerEntity
update_media_player m e = record e { state = m.state; volume = m.volume; muted = m.muted }

pub record WaterHeaterEntity : Type 0 where
  pub key : UInt32
  pub object_id : String
  pub name : String
  pub icon : String
  pub min_temperature : Float32
  pub max_temperature : Float32
  pub target_temperature_step : Float32
  pub supported_modes : List Enum
  pub supported_features : UInt32
  pub disabled_by_default : Bool
  pub entity_category : Enum
  pub device_id : UInt32
  pub current_temperature : Float32
  pub target_temperature : Float32
  pub target_temperature_low : Float32
  pub target_temperature_high : Float32
  pub mode : Enum
  pub state : UInt32

-- The entity that a ListEntitiesWaterHeaterResponse makes; what it does not name is zero.
unfoldable pub water_heater_entity : ListEntitiesWaterHeaterResponse → WaterHeaterEntity
water_heater_entity m = record {
  key = m.key;
  object_id = m.object_id;
  name = m.name;
  icon = m.icon;
  min_temperature = m.min_temperature;
  max_temperature = m.max_temperature;
  target_temperature_step = m.target_temperature_step;
  supported_modes = m.supported_modes;
  supported_features = m.supported_features;
  disabled_by_default = m.disabled_by_default;
  entity_category = m.entity_category;
  device_id = m.device_id;
  current_temperature = 0;
  target_temperature = 0;
  target_temperature_low = 0;
  target_temperature_high = 0;
  mode = 0;
  state = 0;
}

unfoldable pub update_water_heater :
    WaterHeaterStateResponse → WaterHeaterEntity → WaterHeaterEntity
update_water_heater m e = record e {
  current_temperature = m.current_temperature;
  target_temperature = m.target_temperature;
  target_temperature_low = m.target_temperature_low;
  target_temperature_high = m.target_temperature_high;
  mode = m.mode;
  state = m.state;
}
