-- ===== src/Pb/Commands.antt =====
-- The *CommandRequest messages (pb/api.pb.go).
use esphome_apiclient.Common.{String, Bool}
use esphome_apiclient.Pb.Types.{Enum, Float32, Int32, UInt32}

pub record CoverCommandRequest : Type 0 where
  pub key : UInt32
  pub has_legacy_command : Bool
  pub legacy_command : Enum
  pub has_position : Bool
  pub position : Float32
  pub has_tilt : Bool
  pub tilt : Float32
  pub stop : Bool
  pub device_id : UInt32

pub record FanCommandRequest : Type 0 where
  pub key : UInt32
  pub has_state : Bool
  pub state : Bool
  pub has_speed : Bool
  pub speed : Enum
  pub has_oscillating : Bool
  pub oscillating : Bool
  pub has_direction : Bool
  pub direction : Enum
  pub has_speed_level : Bool
  pub speed_level : Int32
  pub has_preset_mode : Bool
  pub preset_mode : String
  pub device_id : UInt32

pub record LightCommandRequest : Type 0 where
  pub key : UInt32
  pub has_state : Bool
  pub state : Bool
  pub has_brightness : Bool
  pub brightness : Float32
  pub has_color_mode : Bool
  pub color_mode : Enum
  pub has_color_brightness : Bool
  pub color_brightness : Float32
  pub has_rgb : Bool
  pub red : Float32
  pub green : Float32
  pub blue : Float32
  pub has_white : Bool
  pub white : Float32
  pub has_color_temperature : Bool
  pub color_temperature : Float32
  pub has_cold_white : Bool
  pub cold_white : Float32
  pub has_warm_white : Bool
  pub warm_white : Float32
  pub has_transition_length : Bool
  pub transition_length : UInt32
  pub has_flash_length : Bool
  pub flash_length : UInt32
  pub has_effect : Bool
  pub effect : String
  pub device_id : UInt32

pub record SwitchCommandRequest : Type 0 where
  pub key : UInt32
  pub state : Bool
  pub device_id : UInt32

pub record ClimateCommandRequest : Type 0 where
  pub key : UInt32
  pub has_mode : Bool
  pub mode : Enum
  pub has_target_temperature : Bool
  pub target_temperature : Float32
  pub has_target_temperature_low : Bool
  pub target_temperature_low : Float32
  pub has_target_temperature_high : Bool
  pub target_temperature_high : Float32
  pub unused_has_legacy_away : Bool
  pub unused_legacy_away : Bool
  pub has_fan_mode : Bool
  pub fan_mode : Enum
  pub has_swing_mode : Bool
  pub swing_mode : Enum
  pub has_custom_fan_mode : Bool
  pub custom_fan_mode : String
  pub has_preset : Bool
  pub preset : Enum
  pub has_custom_preset : Bool
  pub custom_preset : String
  pub has_target_humidity : Bool
  pub target_humidity : Float32
  pub device_id : UInt32

pub record NumberCommandRequest : Type 0 where
  pub key : UInt32
  pub state : Float32
  pub device_id : UInt32

pub record SelectCommandRequest : Type 0 where
  pub key : UInt32
  pub state : String
  pub device_id : UInt32

pub record SirenCommandRequest : Type 0 where
  pub key : UInt32
  pub has_state : Bool
  pub state : Bool
  pub has_tone : Bool
  pub tone : String
  pub has_duration : Bool
  pub duration : UInt32
  pub has_volume : Bool
  pub volume : Float32
  pub device_id : UInt32

pub record LockCommandRequest : Type 0 where
  pub key : UInt32
  pub command : Enum
  pub has_code : Bool
  pub code : String
  pub device_id : UInt32

pub record ButtonCommandRequest : Type 0 where
  pub key : UInt32
  pub device_id : UInt32

pub record MediaPlayerCommandRequest : Type 0 where
  pub key : UInt32
  pub has_command : Bool
  pub command : Enum
  pub has_volume : Bool
  pub volume : Float32
  pub has_media_url : Bool
  pub media_url : String
  pub has_announcement : Bool
  pub announcement : Bool
  pub device_id : UInt32

pub record WaterHeaterCommandRequest : Type 0 where
  pub key : UInt32
  pub has_fields : UInt32
  pub mode : Enum
  pub target_temperature : Float32
  pub device_id : UInt32
  pub state : UInt32
  pub target_temperature_low : Float32
  pub target_temperature_high : Float32
