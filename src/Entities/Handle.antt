-- ===== src/Entities/Handle.antt =====
-- entities.go: HandleListEntityMessage, HandleStateMessage and the lookups. A method that changes the
-- registry returns the new one; the registry's lock makes each call one step.
use esphome_apiclient.Common.{nat_key, string_key}
use esphome_apiclient.Common.{ℕ, suc, String, Bool, true, false, Option, none, some, List, length}
use esphome_apiclient.Common.Maps.{lookup, insert, values}
use esphome_apiclient.Pb.Message.{Message}
use esphome_apiclient.Entities.Domain.{EntityDomain, EntityOf}
use esphome_apiclient.Entities.Table.{enter, modify}
use esphome_apiclient.Entities.Registry.{EntityRegistry, Ref, table, set_table}
use esphome_apiclient.Entities.Readings.{
  sensor_entity, binary_sensor_entity, text_sensor_entity, camera_entity, update_sensor,
  update_binary_sensor, update_text_sensor, update_camera,
}
use esphome_apiclient.Entities.Controls.{
  cover_entity, fan_entity, light_entity, update_cover, update_fan, update_light,
}
use esphome_apiclient.Entities.Inputs.{
  switch_entity, number_entity, select_entity, button_entity, lock_entity, update_switch,
  update_number, update_select, update_lock,
}
use esphome_apiclient.Entities.Devices.{
  siren_entity, media_player_entity, water_heater_entity, update_siren, update_media_player,
  update_water_heater,
}
use esphome_apiclient.Entities.Climate.{climate_entity, update_climate}

-- A new object, entered under its key and its name: `e := &T{...}`, `r.ts[m.Key] = e`,
-- `r.byKey[m.Key] = e` and `r.byName[m.Name] = e`.
unfoldable pub register :
    (d : EntityDomain) → ℕ → String → EntityOf d → EntityRegistry → EntityRegistry
register d k name v r =
    let ref : Ref = record { domain = d; address = r.next } in
    record {
      tables = set_table d (enter k r.next v (table d r.tables)) r.tables;
      by_key = insert k ref r.by_key;
      by_name = insert name ref r.by_name;
      next = suc r.next;
    }

-- `if e, ok := r.ts[m.Key]; ok { ...; return true }`
unfoldable pub update :
    (d : EntityDomain) → ℕ → (EntityOf d → EntityOf d) → EntityRegistry → EntityRegistry × Bool
update d k f r = elim (lookup k (table d r.tables).index) [
  | none ↦ (r, false)
  | some a ↦ (record r { tables = set_table d (modify a f (table d r.tables)) r.tables }, true)
]

-- HandleListEntityMessage
unfoldable pub handle_list_entity_message : Message → EntityRegistry → EntityRegistry × Bool
handle_list_entity_message (Message.list_entities_sensor_response m) r =
    (register EntityDomain.sensor m.key m.name (sensor_entity m) r, true)
handle_list_entity_message (Message.list_entities_binary_sensor_response m) r =
    (register EntityDomain.binary_sensor m.key m.name (binary_sensor_entity m) r, true)
handle_list_entity_message (Message.list_entities_cover_response m) r =
    (register EntityDomain.cover m.key m.name (cover_entity m) r, true)
handle_list_entity_message (Message.list_entities_fan_response m) r =
    (register EntityDomain.fan m.key m.name (fan_entity m) r, true)
handle_list_entity_message (Message.list_entities_light_response m) r =
    (register EntityDomain.light m.key m.name (light_entity m) r, true)
handle_list_entity_message (Message.list_entities_switch_response m) r =
    (register EntityDomain.switch m.key m.name (switch_entity m) r, true)
handle_list_entity_message (Message.list_entities_text_sensor_response m) r =
    (register EntityDomain.text_sensor m.key m.name (text_sensor_entity m) r, true)
handle_list_entity_message (Message.list_entities_camera_response m) r =
    (register EntityDomain.camera m.key m.name (camera_entity m) r, true)
handle_list_entity_message (Message.list_entities_climate_response m) r =
    (register EntityDomain.climate m.key m.name (climate_entity m) r, true)
handle_list_entity_message (Message.list_entities_number_response m) r =
    (register EntityDomain.number m.key m.name (number_entity m) r, true)
handle_list_entity_message (Message.list_entities_select_response m) r =
    (register EntityDomain.select m.key m.name (select_entity m) r, true)
handle_list_entity_message (Message.list_entities_siren_response m) r =
    (register EntityDomain.siren m.key m.name (siren_entity m) r, true)
handle_list_entity_message (Message.list_entities_lock_response m) r =
    (register EntityDomain.lock m.key m.name (lock_entity m) r, true)
handle_list_entity_message (Message.list_entities_button_response m) r =
    (register EntityDomain.button m.key m.name (button_entity m) r, true)
handle_list_entity_message (Message.list_entities_media_player_response m) r =
    (register EntityDomain.media_player m.key m.name (media_player_entity m) r, true)
handle_list_entity_message (Message.list_entities_water_heater_response m) r =
    (register EntityDomain.water_heater m.key m.name (water_heater_entity m) r, true)
handle_list_entity_message _ r = (r, false)

-- HandleStateMessage
unfoldable pub handle_state_message : Message → EntityRegistry → EntityRegistry × Bool
handle_state_message (Message.sensor_state_response m) r =
    update EntityDomain.sensor m.key (update_sensor m) r
handle_state_message (Message.binary_sensor_state_response m) r =
    update EntityDomain.binary_sensor m.key (update_binary_sensor m) r
handle_state_message (Message.cover_state_response m) r =
    update EntityDomain.cover m.key (update_cover m) r
handle_state_message (Message.fan_state_response m) r =
    update EntityDomain.fan m.key (update_fan m) r
handle_state_message (Message.light_state_response m) r =
    update EntityDomain.light m.key (update_light m) r
handle_state_message (Message.switch_state_response m) r =
    update EntityDomain.switch m.key (update_switch m) r
handle_state_message (Message.text_sensor_state_response m) r =
    update EntityDomain.text_sensor m.key (update_text_sensor m) r
handle_state_message (Message.camera_image_response m) r =
    update EntityDomain.camera m.key (update_camera m) r
handle_state_message (Message.climate_state_response m) r =
    update EntityDomain.climate m.key (update_climate m) r
handle_state_message (Message.number_state_response m) r =
    update EntityDomain.number m.key (update_number m) r
handle_state_message (Message.select_state_response m) r =
    update EntityDomain.select m.key (update_select m) r
handle_state_message (Message.siren_state_response m) r =
    update EntityDomain.siren m.key (update_siren m) r
handle_state_message (Message.lock_state_response m) r =
    update EntityDomain.lock m.key (update_lock m) r
handle_state_message (Message.media_player_state_response m) r =
    update EntityDomain.media_player m.key (update_media_player m) r
handle_state_message (Message.water_heater_state_response m) r =
    update EntityDomain.water_heater m.key (update_water_heater m) r
handle_state_message _ r = (r, false)

-- ByKey, ByName and Len
unfoldable pub by_key : ℕ → EntityRegistry → Option Ref
by_key k r = lookup k r.by_key

unfoldable pub by_name : String → EntityRegistry → Option Ref
by_name n r = lookup n r.by_name

unfoldable pub len : EntityRegistry → ℕ
len r = length r.by_key

-- The object that an Entity value points to.
abbrev pub deref : (ref : Ref) → EntityRegistry → Option (EntityOf ref.domain)
deref ref r = lookup ref.address (table ref.domain r.tables).objects

-- Sensors, BinarySensors and the other accessors: the pointers of a domain, in the map's order.
unfoldable pub entities : EntityDomain → EntityRegistry → List ℕ
entities d r = values (table d r.tables).index
