-- ===== src/Entities/Readings.antt =====
-- entities.go: sensors, binary sensors, text sensors and cameras. Their records, the entity that a listing message makes, and the update by
-- a state message.
use esphome_apiclient.Common.{ℕ, String, Bool, true, false, Option, none, some, List, ◌++◌}
use esphome_apiclient.Pb.Types.{Enum, Float32, Int32, UInt32}
use esphome_apiclient.Pb.Listing.{
  ListEntitiesSensorResponse, ListEntitiesBinarySensorResponse, ListEntitiesTextSensorResponse,
  ListEntitiesCameraResponse,
}
use esphome_apiclient.Pb.States.{
  SensorStateResponse, BinarySensorStateResponse, TextSensorStateResponse, CameraImageResponse,
}

pub record SensorEntity : Type 0 where
  pub key : UInt32
  pub object_id : String
  pub name : String
  pub icon : String
  pub unit_of_measurement : String
  pub accuracy_decimals : Int32
  pub force_update : Bool
  pub device_class : String
  pub state_class : Enum
  pub disabled_by_default : Bool
  pub entity_category : Enum
  pub device_id : UInt32
  pub state : Float32
  pub missing_state : Bool

-- The entity that a ListEntitiesSensorResponse makes; what it does not name is zero.
unfoldable pub sensor_entity : ListEntitiesSensorResponse → SensorEntity
sensor_entity m = record {
  key = m.key;
  object_id = m.object_id;
  name = m.name;
  icon = m.icon;
  unit_of_measurement = m.unit_of_measurement;
  accuracy_decimals = m.accuracy_decimals;
  force_update = m.force_update;
  device_class = m.device_class;
  state_class = m.state_class;
  disabled_by_default = m.disabled_by_default;
  entity_category = m.entity_category;
  device_id = m.device_id;
  state = 0;
  missing_state = true;
}

unfoldable pub update_sensor : SensorStateResponse → SensorEntity → SensorEntity
update_sensor m e = record e { state = m.state; missing_state = m.missing_state }

pub record BinarySensorEntity : Type 0 where
  pub key : UInt32
  pub object_id : String
  pub name : String
  pub icon : String
  pub device_class : String
  pub is_status_binary_sensor : Bool
  pub disabled_by_default : Bool
  pub entity_category : Enum
  pub device_id : UInt32
  pub state : Bool
  pub missing_state : Bool

-- The entity that a ListEntitiesBinarySensorResponse makes; what it does not name is zero.
unfoldable pub binary_sensor_entity : ListEntitiesBinarySensorResponse → BinarySensorEntity
binary_sensor_entity m = record {
  key = m.key;
  object_id = m.object_id;
  name = m.name;
  icon = m.icon;
  device_class = m.device_class;
  is_status_binary_sensor = m.is_status_binary_sensor;
  disabled_by_default = m.disabled_by_default;
  entity_category = m.entity_category;
  device_id = m.device_id;
  state = false;
  missing_state = true;
}

unfoldable pub update_binary_sensor :
    BinarySensorStateResponse → BinarySensorEntity → BinarySensorEntity
update_binary_sensor m e = record e { state = m.state; missing_state = m.missing_state }

pub record TextSensorEntity : Type 0 where
  pub key : UInt32
  pub object_id : String
  pub name : String
  pub icon : String
  pub device_class : String
  pub disabled_by_default : Bool
  pub entity_category : Enum
  pub device_id : UInt32
  pub state : String
  pub missing_state : Bool

-- The entity that a ListEntitiesTextSensorResponse makes; what it does not name is zero.
unfoldable pub text_sensor_entity : ListEntitiesTextSensorResponse → TextSensorEntity
text_sensor_entity m = record {
  key = m.key;
  object_id = m.object_id;
  name = m.name;
  icon = m.icon;
  device_class = m.device_class;
  disabled_by_default = m.disabled_by_default;
  entity_category = m.entity_category;
  device_id = m.device_id;
  state = "";
  missing_state = true;
}

unfoldable pub update_text_sensor : TextSensorStateResponse → TextSensorEntity → TextSensorEntity
update_text_sensor m e = record e { state = m.state; missing_state = m.missing_state }

pub record CameraEntity : Type 0 where
  pub key : UInt32
  pub object_id : String
  pub name : String
  pub icon : String
  pub disabled_by_default : Bool
  pub entity_category : Enum
  pub device_id : UInt32
  pub image_data : Option (List ℕ)
  pub image_done : Bool

-- The entity that a ListEntitiesCameraResponse makes; what it does not name is zero.
unfoldable pub camera_entity : ListEntitiesCameraResponse → CameraEntity
camera_entity m = record {
  key = m.key;
  object_id = m.object_id;
  name = m.name;
  icon = m.icon;
  disabled_by_default = m.disabled_by_default;
  entity_category = m.entity_category;
  device_id = m.device_id;
  image_data = none;
  image_done = false;
}

-- `e.ImageDone || e.ImageData == nil` starts an image, anything else goes on with it.
abbrev next_image : Bool → Option (List ℕ) → Option (List ℕ) → Option (List ℕ)
next_image true held content = content
next_image false none content = content
next_image false (some held) none = some held
next_image false (some held) (some more) = some (held ++ more)

unfoldable pub update_camera : CameraImageResponse → CameraEntity → CameraEntity
update_camera m e = record e {
  image_data = next_image e.image_done e.image_data m.content;
  image_done = m.done;
}
