-- ===== src/Pb/Listing/Heating.antt =====
-- pb/api.pb.go: the messages that list climate devices and water heaters, and the services.
use esphome_apiclient.Common.{String, Bool, List}
use esphome_apiclient.Pb.Types.{Enum, Float32, UInt32}

pub record ListEntitiesClimateResponse : Type 0 where
  pub object_id : String
  pub key : UInt32
  pub name : String
  pub supports_current_temperature : Bool
  pub supports_two_point_target_temperature : Bool
  pub supported_modes : List Enum
  pub visual_min_temperature : Float32
  pub visual_max_temperature : Float32
  pub visual_target_temperature_step : Float32
  pub legacy_supports_away : Bool
  pub supports_action : Bool
  pub supported_fan_modes : List Enum
  pub supported_swing_modes : List Enum
  pub supported_custom_fan_modes : List String
  pub supported_presets : List Enum
  pub supported_custom_presets : List String
  pub disabled_by_default : Bool
  pub icon : String
  pub entity_category : Enum
  pub visual_current_temperature_step : Float32
  pub supports_current_humidity : Bool
  pub supports_target_humidity : Bool
  pub visual_min_humidity : Float32
  pub visual_max_humidity : Float32
  pub device_id : UInt32
  pub feature_flags : UInt32

pub record ListEntitiesWaterHeaterResponse : Type 0 where
  pub object_id : String
  pub key : UInt32
  pub name : String
  pub icon : String
  pub disabled_by_default : Bool
  pub entity_category : Enum
  pub device_id : UInt32
  pub min_temperature : Float32
  pub max_temperature : Float32
  pub target_temperature_step : Float32
  pub supported_modes : List Enum
  pub supported_features : UInt32

pub record ListEntitiesServicesArgument : Type 0 where
  pub name : String
  pub arg_type : Enum

pub record ListEntitiesServicesResponse : Type 0 where
  pub name : String
  pub key : UInt32
  pub args : List ListEntitiesServicesArgument
  pub supports_response : Enum
