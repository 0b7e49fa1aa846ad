-- ===== src/Pb/Listing/Readings.antt =====
-- pb/api.pb.go: the messages that list the sensors and the camera.
use esphome_apiclient.Common.{String, Bool}
use esphome_apiclient.Pb.Types.{Enum, Int32, UInt32}

pub record ListEntitiesSensorResponse : Type 0 where
  pub object_id : String
  pub key : UInt32
  pub name : String
  pub icon : String
  pub unit_of_measurement : String
  pub accuracy_decimals : Int32
  pub force_update : Bool
  pub device_class : String
  pub state_class : Enum
  pub legacy_last_reset_type : Enum
  pub disabled_by_default : Bool
  pub entity_category : Enum
  pub device_id : UInt32

pub record ListEntitiesBinarySensorResponse : Type 0 where
  pub object_id : String
  pub key : UInt32
  pub name : String
  pub device_class : String
  pub is_status_binary_sensor : Bool
  pub disabled_by_default : Bool
  pub icon : String
  pub entity_category : Enum
  pub device_id : UInt32

pub record ListEntitiesTextSensorResponse : Type 0 where
  pub object_id : String
  pub key : UInt32
  pub name : String
  pub icon : String
  pub disabled_by_default : Bool
  pub entity_category : Enum
  pub device_class : String
  pub device_id : UInt32

pub record ListEntitiesCameraResponse : Type 0 where
  pub object_id : String
  pub key : UInt32
  pub name : String
  pub disabled_by_default : Bool
  pub icon : String
  pub entity_category : Enum
  pub device_id : UInt32
