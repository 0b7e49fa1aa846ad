-- ===== src/Pb/Listing/Controls.antt =====
-- pb/api.pb.go: the messages that list what can be switched, set or pressed.
use esphome_apiclient.Common.{String, Bool, List}
use esphome_apiclient.Pb.Types.{Enum, Float32, Int32, UInt32}

pub record ListEntitiesCoverResponse : Type 0 where
  pub object_id : String
  pub key : UInt32
  pub name : String
  pub assumed_state : Bool
  pub supports_position : Bool
  pub supports_tilt : Bool
  pub device_class : String
  pub disabled_by_default : Bool
  pub icon : String
  pub entity_category : Enum
  pub supports_stop : Bool
  pub device_id : UInt32

pub record ListEntitiesFanResponse : Type 0 where
  pub object_id : String
  pub key : UInt32
  pub name : String
  pub supports_oscillation : Bool
  pub supports_speed : Bool
  pub supports_direction : Bool
  pub supported_speed_count : Int32
  pub disabled_by_default : Bool
  pub icon : String
  pub entity_category : Enum
  pub supported_preset_modes : List String
  pub device_id : UInt32

pub record ListEntitiesLightResponse : Type 0 where
  pub object_id : String
  pub key : UInt32
  pub name : String
  pub supported_color_modes : List Enum
  pub legacy_supports_brightness : Bool
  pub legacy_supports_rgb : Bool
  pub legacy_supports_white_value : Bool
  pub legacy_supports_color_temperature : Bool
  pub min_mireds : Float32
  pub max_mireds : Float32
  pub effects : List String
  pub disabled_by_default : Bool
  pub icon : String
  pub entity_category : Enum
  pub device_id : UInt32

pub record ListEntitiesSwitchResponse : Type 0 where
  pub object_id : String
  pub key : UInt32
  pub name : String
  pub icon : String
  pub assumed_state : Bool
  pub disabled_by_default : Bool
  pub entity_category : Enum
  pub device_class : String
  pub device_id : UInt32

pub record ListEntitiesNumberResponse : Type 0 where
  pub object_id : String
  pub key : UInt32
  pub name : String
  pub icon : String
  pub min_value : Float32
  pub max_value : Float32
  pub step : Float32
  pub disabled_by_default : Bool
  pub entity_category : Enum
  pub unit_of_measurement : String
  pub mode : Enum
  pub device_class : String
  pub device_id : UInt32

pub record ListEntitiesSelectResponse : Type 0 where
  pub object_id : String
  pub key : UInt32
  pub name : String
  pub icon : String
  pub options : List String
  pub disabled_by_default : Bool
  pub entity_category : Enum
  pub device_id : UInt32

pub record ListEntitiesSirenResponse : Type 0 where
  pub object_id : String
  pub key : UInt32
  pub name : String
  pub icon : String
  pub disabled_by_default : Bool
  pub tones : List String
  pub supports_duration : Bool
  pub supports_volume : Bool
  pub entity_category : Enum
  pub device_id : UInt32

pub record ListEntitiesLockResponse : Type 0 where
  pub object_id : String
  pub key : UInt32
  pub name : String
  pub icon : String
  pub disabled_by_default : Bool
  pub entity_category : Enum
  pub assumed_state : Bool
  pub supports_open : Bool
  pub requires_code : Bool
  pub code_format : String
  pub device_id : UInt32

pub record ListEntitiesButtonResponse : Type 0 where
  pub object_id : String
  pub key : UInt32
  pub name : String
  pub icon : String
  pub disabled_by_default : Bool
  pub entity_category : Enum
  pub device_class : String
  pub device_id : UInt32

pub record MediaPlayerSupportedFormat : Type 0 where
  pub format : String
  pub sample_rate : UInt32
  pub num_channels : UInt32
  pub purpose : Enum
  pub sample_bytes : UInt32

pub record ListEntitiesMediaPlayerResponse : Type 0 where
  pub object_id : String
  pub key : UInt32
  pub name : String
  pub icon : String
  pub disabled_by_default : Bool
  pub entity_category : Enum
  pub supports_pause : Bool
  pub supported_formats : List MediaPlayerSupportedFormat
  pub device_id : UInt32
  pub feature_flags : UInt32
