-- ===== src/Pb/States.antt =====
-- The *StateResponse messages and the camera image (pb/api.pb.go).
use esphome_apiclient.Common.{ℕ, String, Bool, Option, List}
use esphome_apiclient.Pb.Types.{Enum, Float32, Int32, UInt32}

pub record SensorStateResponse : Type 0 where
  pub key : UInt32
  pub state : Float32
  pub missing_state : Bool
  pub device_id : UInt32

pub record BinarySensorStateResponse : Type 0 where
  pub key : UInt32
  pub state : Bool
  pub missing_state : Bool
  pub device_id : UInt32

pub record CoverStateResponse : Type 0 where
  pub key : UInt32
  pub legacy_state : Enum
  pub position : Float32
  pub tilt : Float32
  pub current_operation : Enum
  pub device_id : UInt32

pub record FanStateResponse : Type 0 where
  pub key : UInt32
  pub state : Bool
  pub oscillating : Bool
  pub speed : Enum
  pub direction : Enum
  pub speed_level : Int32
  pub preset_mode : String
  pub device_id : UInt32

pub record LightStateResponse : Type 0 where
  pub key : UInt32
  pub state : Bool
  pub brightness : Float32
  pub color_mode : Enum
  pub color_brightness : Float32
  pub red : Float32
  pub green : Float32
  pub blue : Float32
  pub white : Float32
  pub color_temperature : Float32
  pub cold_white : Float32
  pub warm_white : Float32
  pub effect : String
  pub device_id : UInt32

pub record SwitchStateResponse : Type 0 where
  pub key : UInt32
  pub state : Bool
  pub device_id : UInt32

pub record TextSensorStateResponse : Type 0 where
  pub key : UInt32
  pub state : String
  pub missing_state : Bool
  pub device_id : UInt32

pub record CameraImageResponse : Type 0 where
  pub key : UInt32
  pub content : Option (List ℕ)
  pub done : Bool
  pub device_id : UInt32

pub record ClimateStateResponse : Type 0 where
  pub key : UInt32
  pub mode : Enum
  pub current_temperature : Float32
  pub target_temperature : Float32
  pub target_temperature_low : Float32
  pub target_temperature_high : Float32
  pub unused_legacy_away : Bool
  pub action : Enum
  pub fan_mode : Enum
  pub swing_mode : Enum
  pub custom_fan_mode : String
  pub preset : Enum
  pub custom_preset : String
  pub current_humidity : Float32
  pub target_humidity : Float32
  pub device_id : UInt32

pub record NumberStateResponse : Type 0 where
  pub key : UInt32
  pub state : Float32
  pub missing_state : Bool
  pub device_id : UInt32

pub record SelectStateResponse : Type 0 where
  pub key : UInt32
  pub state : String
  pub missing_state : Bool
  pub device_id : UInt32

pub record SirenStateResponse : Type 0 where
  pub key : UInt32
  pub state : Bool
  pub device_id : UInt32

pub record LockStateResponse : Type 0 where
  pub key : UInt32
  pub state : Enum
  pub device_id : UInt32

pub record MediaPlayerStateResponse : Type 0 where
  pub key : UInt32
  pub state : Enum
  pub volume : Float32
  pub muted : Bool
  pub device_id : UInt32

pub record WaterHeaterStateResponse : Type 0 where
  pub key : UInt32
  pub current_temperature : Float32
  pub target_temperature : Float32
  pub mode : Enum
  pub device_id : UInt32
  pub state : UInt32
  pub target_temperature_low : Float32
  pub target_temperature_high : Float32
