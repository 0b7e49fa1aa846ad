-- ===== src/Commands/Options.antt =====
-- commands.go: the optional parameters of the commands.
use esphome_apiclient.Common.{String, Bool}
use esphome_apiclient.Pb.Types.{Enum, Float32, Int32, UInt32}

pub record LightCommandOpts : Type 0 where
  pub has_state : Bool
  pub state : Bool
  pub has_brightness : Bool
  pub brightness : Float32
  pub has_color_mode : Bool
  pub color_mode : Enum
  pub has_color_brightness : Bool
  pub color_brightness : Float32
  pub has_rgb : Bool
  pub red : Float32
  pub green : Float32
  pub blue : Float32
  pub has_white : Bool
  pub white : Float32
  pub has_color_temperature : Bool
  pub color_temperature : Float32
  pub has_cold_white : Bool
  pub cold_white : Float32
  pub has_warm_white : Bool
  pub warm_white : Float32
  pub has_transition_length : Bool
  pub transition_length : UInt32
  pub has_flash_length : Bool
  pub flash_length : UInt32
  pub has_effect : Bool
  pub effect : String

pub record ClimateCommandOpts : Type 0 where
  pub has_mode : Bool
  pub mode : Enum
  pub has_target_temperature : Bool
  pub target_temperature : Float32
  pub has_target_temperature_low : Bool
  pub target_temperature_low : Float32
  pub has_target_temperature_high : Bool
  pub target_temperature_high : Float32
  pub has_fan_mode : Bool
  pub fan_mode : Enum
  pub has_swing_mode : Bool
  pub swing_mode : Enum
  pub has_custom_fan_mode : Bool
  pub custom_fan_mode : String
  pub has_preset : Bool
  pub preset : Enum
  pub has_custom_preset : Bool
  pub custom_preset : String
  pub has_target_humidity : Bool
  pub target_humidity : Float32

pub record CoverCommandOpts : Type 0 where
  pub has_position : Bool
  pub position : Float32
  pub has_tilt : Bool
  pub tilt : Float32
  pub stop : Bool

pub record FanCommandOpts : Type 0 where
  pub has_state : Bool
  pub state : Bool
  pub has_oscillating : Bool
  pub oscillating : Bool
  pub has_direction : Bool
  pub direction : Enum
  pub has_speed_level : Bool
  pub speed_level : Int32
  pub has_preset_mode : Bool
  pub preset_mode : String

pub record SirenCommandOpts : Type 0 where
  pub has_state : Bool
  pub state : Bool
  pub has_tone : Bool
  pub tone : String
  pub has_duration : Bool
  pub duration : UInt32
  pub has_volume : Bool
  pub volume : Float32

pub record MediaPlayerCommandOpts : Type 0 where
  pub has_command : Bool
  pub command : Enum
  pub has_volume : Bool
  pub volume : Float32
  pub has_media_url : Bool
  pub media_url : String
  pub has_announcement : Bool
  pub announcement : Bool
