-- ===== src/Entities/Handling.antt =====
-- What HandleListEntityMessage and HandleStateMessage (entities.go) do with each message.
use esphome_apiclient.Common.{ℕ, String, ◌≡◌, refl, true, false, ◌⊎◌, inl, inr}
use esphome_apiclient.Pb.Message.{Message}
use esphome_apiclient.Entities.Domain.{EntityDomain, EntityOf}
use esphome_apiclient.Entities.Registry.{EntityRegistry}
use esphome_apiclient.Entities.Handle.{
  register, update, handle_list_entity_message, handle_state_message,
}
use esphome_apiclient.Entities.Readings.{
  sensor_entity, binary_sensor_entity, text_sensor_entity, camera_entity, update_sensor,
  update_binary_sensor, update_text_sensor, update_camera,
}
use esphome_apiclient.Entities.Controls.{
  cover_entity, fan_entity, light_entity, update_cover, update_fan, update_light,
}
use esphome_apiclient.Entities.Inputs.{
  switch_entity, number_entity, select_entity, button_entity, lock_entity, update_switch,
  update_number, update_select, update_lock,
}
use esphome_apiclient.Entities.Devices.{
  siren_entity, media_player_entity, water_heater_entity, update_siren, update_media_player,
  update_water_heater,
}
use esphome_apiclient.Entities.Climate.{climate_entity, update_climate}
use esphome_apiclient.Entities.Messages.{
  Lists, Updates, lists_sensor, lists_binary_sensor, lists_cover, lists_fan, lists_light,
  lists_switch, lists_text_sensor, lists_camera, lists_climate, lists_number, lists_select,
  lists_siren, lists_lock, lists_button, lists_media_player, lists_water_heater, updates_sensor,
  updates_binary_sensor, updates_cover, updates_fan, updates_light, updates_switch,
  updates_text_sensor, updates_camera, updates_climate, updates_number, updates_select,
  updates_siren, updates_lock, updates_media_player, updates_water_heater,
}

pub Lists-handled :
    {d : EntityDomain} {m : Message} {k : ℕ} {n : String} {v : EntityOf d} (r : EntityRegistry)
    → Lists d m k n v
    → handle_list_entity_message m r ≡ (register d k n v r, true)
unfolding handle_list_entity_message
Lists-handled r (lists_sensor m) = refl
Lists-handled r (lists_binary_sensor m) = refl
Lists-handled r (lists_cover m) = refl
Lists-handled r (lists_fan m) = refl
Lists-handled r (lists_light m) = refl
Lists-handled r (lists_switch m) = refl
Lists-handled r (lists_text_sensor m) = refl
Lists-handled r (lists_camera m) = refl
Lists-handled r (lists_climate m) = refl
Lists-handled r (lists_number m) = refl
Lists-handled r (lists_select m) = refl
Lists-handled r (lists_siren m) = refl
Lists-handled r (lists_lock m) = refl
Lists-handled r (lists_button m) = refl
Lists-handled r (lists_media_player m) = refl
Lists-handled r (lists_water_heater m) = refl

pub Updates-handled :
    {d : EntityDomain} {m : Message} {k : ℕ} {f : EntityOf d → EntityOf d} (r : EntityRegistry)
    → Updates d m k f
    → handle_state_message m r ≡ update d k f r
unfolding handle_state_message
Updates-handled r (updates_sensor m) = refl
Updates-handled r (updates_binary_sensor m) = refl
Updates-handled r (updates_cover m) = refl
Updates-handled r (updates_fan m) = refl
Updates-handled r (updates_light m) = refl
Updates-handled r (updates_switch m) = refl
Updates-handled r (updates_text_sensor m) = refl
Updates-handled r (updates_camera m) = refl
Updates-handled r (updates_climate m) = refl
Updates-handled r (updates_number m) = refl
Updates-handled r (updates_select m) = refl
Updates-handled r (updates_siren m) = refl
Updates-handled r (updates_lock m) = refl
Updates-handled r (updates_media_player m) = refl
Updates-handled r (updates_water_heater m) = refl

-- Every message lists an entity or leaves the registry alone, and so for states.
pub handle_list_cases :
    (m : Message) (r : EntityRegistry)
    → ((d : EntityDomain) × (k : ℕ) × (n : String) × (v : EntityOf d) × Lists d m k n v)
      ⊎ (handle_list_entity_message m r ≡ (r, false))
unfolding handle_list_entity_message
handle_list_cases (Message.list_entities_sensor_response m) r =
    inl (EntityDomain.sensor, m.key, m.name, sensor_entity m, lists_sensor m)
handle_list_cases (Message.list_entities_binary_sensor_response m) r =
    inl (EntityDomain.binary_sensor, m.key, m.name, binary_sensor_entity m, lists_binary_sensor m)
handle_list_cases (Message.list_entities_cover_response m) r =
    inl (EntityDomain.cover, m.key, m.name, cover_entity m, lists_cover m)
handle_list_cases (Message.list_entities_fan_response m) r =
    inl (EntityDomain.fan, m.key, m.name, fan_entity m, lists_fan m)
handle_list_cases (Message.list_entities_light_response m) r =
    inl (EntityDomain.light, m.key, m.name, light_entity m, lists_light m)
handle_list_cases (Message.list_entities_switch_response m) r =
    inl (EntityDomain.switch, m.key, m.name, switch_entity m, lists_switch m)
handle_list_cases (Message.list_entities_text_sensor_response m) r =
    inl (EntityDomain.text_sensor, m.key, m.name, text_sensor_entity m, lists_text_sensor m)
handle_list_cases (Message.list_entities_camera_response m) r =
    inl (EntityDomain.camera, m.key, m.name, camera_entity m, lists_camera m)
handle_list_cases (Message.list_entities_climate_response m) r =
    inl (EntityDomain.climate, m.key, m.name, climate_entity m, lists_climate m)
handle_list_cases (Message.list_entities_number_response m) r =
    inl (EntityDomain.number, m.key, m.name, number_entity m, lists_number m)
handle_list_cases (Message.list_entities_select_response m) r =
    inl (EntityDomain.select, m.key, m.name, select_entity m, lists_select m)
handle_list_cases (Message.list_entities_siren_response m) r =
    inl (EntityDomain.siren, m.key, m.name, siren_entity m, lists_siren m)
handle_list_cases (Message.list_entities_lock_response m) r =
    inl (EntityDomain.lock, m.key, m.name, lock_entity m, lists_lock m)
handle_list_cases (Message.list_entities_button_response m) r =
    inl (EntityDomain.button, m.key, m.name, button_entity m, lists_button m)
handle_list_cases (Message.list_entities_media_player_response m) r =
    inl (EntityDomain.media_player, m.key, m.name, media_player_entity m, lists_media_player m)
handle_list_cases (Message.list_entities_water_heater_response m) r =
    inl (EntityDomain.water_heater, m.key, m.name, water_heater_entity m, lists_water_heater m)
handle_list_cases _ r = inr refl

pub handle_state_cases :
    (m : Message) (r : EntityRegistry)
    → ((d : EntityDomain) × (k : ℕ) × (f : EntityOf d → EntityOf d) × Updates d m k f)
      ⊎ (handle_state_message m r ≡ (r, false))
unfolding handle_state_message
handle_state_cases (Message.sensor_state_response m) r =
    inl (EntityDomain.sensor, m.key, update_sensor m, updates_sensor m)
handle_state_cases (Message.binary_sensor_state_response m) r =
    inl (EntityDomain.binary_sensor, m.key, update_binary_sensor m, updates_binary_sensor m)
handle_state_cases (Message.cover_state_response m) r =
    inl (EntityDomain.cover, m.key, update_cover m, updates_cover m)
handle_state_cases (Message.fan_state_response m) r =
    inl (EntityDomain.fan, m.key, update_fan m, updates_fan m)
handle_state_cases (Message.light_state_response m) r =
    inl (EntityDomain.light, m.key, update_light m, updates_light m)
handle_state_cases (Message.switch_state_response m) r =
    inl (EntityDomain.switch, m.key, update_switch m, updates_switch m)
handle_state_cases (Message.text_sensor_state_response m) r =
    inl (EntityDomain.text_sensor, m.key, update_text_sensor m, updates_text_sensor m)
handle_state_cases (Message.camera_image_response m) r =
    inl (EntityDomain.camera, m.key, update_camera m, updates_camera m)
handle_state_cases (Message.climate_state_response m) r =
    inl (EntityDomain.climate, m.key, update_climate m, updates_climate m)
handle_state_cases (Message.number_state_response m) r =
    inl (EntityDomain.number, m.key, update_number m, updates_number m)
handle_state_cases (Message.select_state_response m) r =
    inl (EntityDomain.select, m.key, update_select m, updates_select m)
handle_state_cases (Message.siren_state_response m) r =
    inl (EntityDomain.siren, m.key, update_siren m, updates_siren m)
handle_state_cases (Message.lock_state_response m) r =
    inl (EntityDomain.lock, m.key, update_lock m, updates_lock m)
handle_state_cases (Message.media_player_state_response m) r =
    inl (EntityDomain.media_player, m.key, update_media_player m, updates_media_player m)
handle_state_cases (Message.water_heater_state_response m) r =
    inl (EntityDomain.water_heater, m.key, update_water_heater m, updates_water_heater m)
handle_state_cases _ r = inr refl
