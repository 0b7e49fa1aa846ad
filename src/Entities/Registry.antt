-- ===== src/Entities/Registry.antt =====
-- entities.go: the state of EntityRegistry. An entity is an object at an address, and the maps hold
-- addresses, so that an update through one map is seen through the others. `next` is the allocator.
use esphome_apiclient.Common.{ℕ, String, []}
use esphome_apiclient.Common.Maps.{Map}
use esphome_apiclient.Entities.Table.{Table, no_entities, forget}
use esphome_apiclient.Entities.Domain.{EntityDomain, EntityOf}
use esphome_apiclient.Entities.Readings.{
  SensorEntity, BinarySensorEntity, TextSensorEntity, CameraEntity,
}
use esphome_apiclient.Entities.Controls.{CoverEntity, FanEntity, LightEntity}
use esphome_apiclient.Entities.Inputs.{
  SwitchEntity, NumberEntity, SelectEntity, ButtonEntity, LockEntity,
}
use esphome_apiclient.Entities.Devices.{SirenEntity, MediaPlayerEntity, WaterHeaterEntity}
use esphome_apiclient.Entities.Climate.{ClimateEntity}

-- The value of the Entity interface: its dynamic type and its pointer.
pub record Ref : Type 0 where
  pub domain : EntityDomain
  pub address : ℕ

-- The maps of the domains.
pub record Tables : Type 0 where
  pub sensors : Table SensorEntity
  pub binary_sensors : Table BinarySensorEntity
  pub covers : Table CoverEntity
  pub fans : Table FanEntity
  pub lights : Table LightEntity
  pub switches : Table SwitchEntity
  pub text_sensors : Table TextSensorEntity
  pub cameras : Table CameraEntity
  pub climates : Table ClimateEntity
  pub numbers : Table NumberEntity
  pub selects : Table SelectEntity
  pub sirens : Table SirenEntity
  pub locks : Table LockEntity
  pub buttons : Table ButtonEntity
  pub media_players : Table MediaPlayerEntity
  pub water_heaters : Table WaterHeaterEntity

pub record EntityRegistry : Type 0 where
  pub tables : Tables
  pub by_key : Map ℕ Ref
  pub by_name : Map String Ref
  pub next : ℕ

abbrev pub no_tables : Tables
no_tables = record {
  sensors = no_entities;
  binary_sensors = no_entities;
  covers = no_entities;
  fans = no_entities;
  lights = no_entities;
  switches = no_entities;
  text_sensors = no_entities;
  cameras = no_entities;
  climates = no_entities;
  numbers = no_entities;
  selects = no_entities;
  sirens = no_entities;
  locks = no_entities;
  buttons = no_entities;
  media_players = no_entities;
  water_heaters = no_entities;
}

-- NewEntityRegistry
unfoldable pub new_entity_registry : EntityRegistry
new_entity_registry = record { tables = no_tables; by_key = []; by_name = []; next = 0 }

-- The map of a domain.
abbrev pub table : (d : EntityDomain) → Tables → Table (EntityOf d)
table EntityDomain.sensor r = r.sensors
table EntityDomain.binary_sensor r = r.binary_sensors
table EntityDomain.cover r = r.covers
table EntityDomain.fan r = r.fans
table EntityDomain.light r = r.lights
table EntityDomain.switch r = r.switches
table EntityDomain.text_sensor r = r.text_sensors
table EntityDomain.camera r = r.cameras
table EntityDomain.climate r = r.climates
table EntityDomain.number r = r.numbers
table EntityDomain.select r = r.selects
table EntityDomain.siren r = r.sirens
table EntityDomain.lock r = r.locks
table EntityDomain.button r = r.buttons
table EntityDomain.media_player r = r.media_players
table EntityDomain.water_heater r = r.water_heaters

abbrev pub set_table : (d : EntityDomain) → Table (EntityOf d) → Tables → Tables
set_table EntityDomain.sensor t r = record r { sensors = t }
set_table EntityDomain.binary_sensor t r = record r { binary_sensors = t }
set_table EntityDomain.cover t r = record r { covers = t }
set_table EntityDomain.fan t r = record r { fans = t }
set_table EntityDomain.light t r = record r { lights = t }
set_table EntityDomain.switch t r = record r { switches = t }
set_table EntityDomain.text_sensor t r = record r { text_sensors = t }
set_table EntityDomain.camera t r = record r { cameras = t }
set_table EntityDomain.climate t r = record r { climates = t }
set_table EntityDomain.number t r = record r { numbers = t }
set_table EntityDomain.select t r = record r { selects = t }
set_table EntityDomain.siren t r = record r { sirens = t }
set_table EntityDomain.lock t r = record r { locks = t }
set_table EntityDomain.button t r = record r { buttons = t }
set_table EntityDomain.media_player t r = record r { media_players = t }
set_table EntityDomain.water_heater t r = record r { water_heaters = t }

-- `make` gives every map anew; the objects stay where other pointers reach them.
abbrev pub forget_all : Tables → Tables
forget_all r = record {
  sensors = forget r.sensors;
  binary_sensors = forget r.binary_sensors;
  covers = forget r.covers;
  fans = forget r.fans;
  lights = forget r.lights;
  switches = forget r.switches;
  text_sensors = forget r.text_sensors;
  cameras = forget r.cameras;
  climates = forget r.climates;
  numbers = forget r.numbers;
  selects = forget r.selects;
  sirens = forget r.sirens;
  locks = forget r.locks;
  buttons = forget r.buttons;
  media_players = forget r.media_players;
  water_heaters = forget r.water_heaters;
}

unfoldable pub clear : EntityRegistry → EntityRegistry
clear r = record { tables = forget_all r.tables; by_key = []; by_name = []; next = r.next }
