-- ===== src/Entities/Inputs.antt =====
-- entities.go: switches, numbers, selects, buttons and locks. Their records, the entity that a listing message makes, and the update by
-- a state message.
use esphome_apiclient.Common.{String, Bool, true, false, List}
use esphome_apiclient.Pb.Types.{Enum, Float32, UInt32}
use esphome_apiclient.Pb.Listing.{
  ListEntitiesSwitchResponse, ListEntitiesNumberResponse, ListEntitiesSelectResponse,
  ListEntitiesButtonResponse, ListEntitiesLockResponse,
}
use esphome_apiclient.Pb.States.{
  SwitchStateResponse, NumberStateResponse, SelectStateResponse, LockStateResponse,
}

pub record SwitchEntity : Type 0 where
  pub key : UInt32
  pub object_id : String
  pub name : String
  pub icon : String
  pub assumed_state : Bool
  pub device_class : String
  pub disabled_by_default : Bool
  pub entity_category : Enum
  pub device_id : UInt32
  pub state : Bool

-- The entity that a ListEntitiesSwitchResponse makes; what it does not name is zero.
unfoldable pub switch_entity : ListEntitiesSwitchResponse → SwitchEntity
switch_entity m = record {
  key = m.key;
  object_id = m.object_id;
  name = m.name;
  icon = m.icon;
  assumed_state = m.assumed_state;
  device_class = m.device_class;
  disabled_by_default = m.disabled_by_default;
  entity_category = m.entity_category;
  device_id = m.device_id;
  state = false;
}

unfoldable pub update_switch : SwitchStateResponse → SwitchEntity → SwitchEntity
update_switch m e = record e { state = m.state }

pub record NumberEntity : Type 0 where
  pub key : UInt32
  pub object_id : String
  pub name : String
  pub icon : String
  pub min_value : Float32
  pub max_value : Float32
  pub step : Float32
  pub unit_of_measurement : String
  pub mode : Enum
  pub device_class : String
  pub disabled_by_default : Bool
  pub entity_category : Enum
  pub device_id : UInt32
  pub state : Float32
  pub missing_state : Bool

-- The entity that a ListEntitiesNumberResponse makes; what it does not name is zero.
unfoldable pub number_entity : ListEntitiesNumberResponse → NumberEntity
number_entity m = record {
  key = m.key;
  object_id = m.object_id;
  name = m.name;
  icon = m.icon;
  min_value = m.min_value;
  max_value = m.max_value;
  step = m.step;
  unit_of_measurement = m.unit_of_measurement;
  mode = m.mode;
  device_class = m.device_class;
  disabled_by_default = m.disabled_by_default;
  entity_category = m.entity_category;
  device_id = m.device_id;
  state = 0;
  missing_state = true;
}

unfoldable pub update_number : NumberStateResponse → NumberEntity → NumberEntity
update_number m e = record e { state = m.state; missing_state = m.missing_state }

pub record SelectEntity : Type 0 where
  pub key : UInt32
  pub object_id : String
  pub name : String
  pub icon : String
  pub options : List String
  pub disabled_by_default : Bool
  pub entity_category : Enum
  pub device_id : UInt32
  pub state : String
  pub missing_state : Bool

-- The entity that a ListEntitiesSelectResponse makes; what it does not name is zero.
unfoldable pub select_entity : ListEntitiesSelectResponse → SelectEntity
select_entity m = record {
  key = m.key;
  object_id = m.object_id;
  name = m.name;
  icon = m.icon;
  options = m.options;
  disabled_by_default = m.disabled_by_default;
  entity_category = m.entity_category;
  device_id = m.device_id;
  state = "";
  missing_state = true;
}

unfoldable pub update_select : SelectStateResponse → SelectEntity → SelectEntity
update_select m e = record e { state = m.state; missing_state = m.missing_state }

pub record ButtonEntity : Type 0 where
  pub key : UInt32
  pub object_id : String
  pub name : String
  pub icon : String
  pub device_class : String
  pub disabled_by_default : Bool
  pub entity_category : Enum
  pub device_id : UInt32

-- The entity that a ListEntitiesButtonResponse makes; what it does not name is zero.
unfoldable pub button_entity : ListEntitiesButtonResponse → ButtonEntity
button_entity m = record {
  key = m.key;
  object_id = m.object_id;
  name = m.name;
  icon = m.icon;
  device_class = m.device_class;
  disabled_by_default = m.disabled_by_default;
  entity_category = m.entity_category;
  device_id = m.device_id;
}

pub record LockEntity : Type 0 where
  pub key : UInt32
  pub object_id : String
  pub name : String
  pub icon : String
  pub assumed_state : Bool
  pub supports_open : Bool
  pub requires_code : Bool
  pub code_format : String
  pub disabled_by_default : Bool
  pub entity_category : Enum
  pub device_id : UInt32
  pub state : Enum

-- The entity that a ListEntitiesLockResponse makes; what it does not name is zero.
unfoldable pub lock_entity : ListEntitiesLockResponse → LockEntity
lock_entity m = record {
  key = m.key;
  object_id = m.object_id;
  name = m.name;
  icon = m.icon;
  assumed_state = m.assumed_state;
  supports_open = m.supports_open;
  requires_code = m.requires_code;
  code_format = m.code_format;
  disabled_by_default = m.disabled_by_default;
  entity_category = m.entity_category;
  device_id = m.device_id;
  state = 0;
}

unfoldable pub update_lock : LockStateResponse → LockEntity → LockEntity
update_lock m e = record e { state = m.state }
