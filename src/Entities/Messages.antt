-- ===== src/Entities/Messages.antt =====
-- What each message is for (entities.go): the listing messages, and the state messages of a domain.
use esphome_apiclient.Common.{ℕ, String, ◌≡◌, refl}
use esphome_apiclient.Pb.Message.{Message}
use esphome_apiclient.Pb.Listing.{
  ListEntitiesSensorResponse, ListEntitiesBinarySensorResponse, ListEntitiesCoverResponse,
  ListEntitiesFanResponse, ListEntitiesLightResponse, ListEntitiesSwitchResponse,
  ListEntitiesTextSensorResponse, ListEntitiesCameraResponse, ListEntitiesClimateResponse,
  ListEntitiesNumberResponse, ListEntitiesSelectResponse, ListEntitiesSirenResponse,
  ListEntitiesLockResponse, ListEntitiesButtonResponse, ListEntitiesMediaPlayerResponse,
  ListEntitiesWaterHeaterResponse,
}
use esphome_apiclient.Pb.States.{
  SensorStateResponse, BinarySensorStateResponse, CoverStateResponse, FanStateResponse,
  LightStateResponse, SwitchStateResponse, TextSensorStateResponse, CameraImageResponse,
  ClimateStateResponse, NumberStateResponse, SelectStateResponse, SirenStateResponse,
  LockStateResponse, MediaPlayerStateResponse, WaterHeaterStateResponse,
}
use esphome_apiclient.Entities.Domain.{EntityDomain, EntityOf, key_of, name_of}
use esphome_apiclient.Entities.Updating.{Keeps}
use esphome_apiclient.Entities.Readings.{
  sensor_entity, binary_sensor_entity, text_sensor_entity, camera_entity, update_sensor,
  update_binary_sensor, update_text_sensor, update_camera,
}
use esphome_apiclient.Entities.Controls.{
  cover_entity, fan_entity, light_entity, update_cover, update_fan, update_light,
}
use esphome_apiclient.Entities.Inputs.{
  switch_entity, number_entity, select_entity, button_entity, lock_entity, update_switch,
  update_number, update_select, update_lock,
}
use esphome_apiclient.Entities.Devices.{
  siren_entity, media_player_entity, water_heater_entity, update_siren, update_media_player,
  update_water_heater,
}
use esphome_apiclient.Entities.Climate.{climate_entity, update_climate}

-- A message that lists an entity of the domain, with the key, the name and the object that it makes.
pub data Lists : (d : EntityDomain) → Message → ℕ → String → EntityOf d → Type 0 where
  lists_sensor :
      (m : ListEntitiesSensorResponse)
      → Lists EntityDomain.sensor
          (Message.list_entities_sensor_response m)
          m.key
          m.name
          (sensor_entity m)
  lists_binary_sensor :
      (m : ListEntitiesBinarySensorResponse)
      → Lists EntityDomain.binary_sensor
          (Message.list_entities_binary_sensor_response m)
          m.key
          m.name
          (binary_sensor_entity m)
  lists_cover :
      (m : ListEntitiesCoverResponse)
      → Lists EntityDomain.cover
          (Message.list_entities_cover_response m)
          m.key
          m.name
          (cover_entity m)
  lists_fan :
      (m : ListEntitiesFanResponse)
      → Lists EntityDomain.fan (Message.list_entities_fan_response m) m.key m.name (fan_entity m)
  lists_light :
      (m : ListEntitiesLightResponse)
      → Lists EntityDomain.light
          (Message.list_entities_light_response m)
          m.key
          m.name
          (light_entity m)
  lists_switch :
      (m : ListEntitiesSwitchResponse)
      → Lists EntityDomain.switch
          (Message.list_entities_switch_response m)
          m.key
          m.name
          (switch_entity m)
  lists_text_sensor :
      (m : ListEntitiesTextSensorResponse)
      → Lists EntityDomain.text_sensor
          (Message.list_entities_text_sensor_response m)
          m.key
          m.name
          (text_sensor_entity m)
  lists_camera :
      (m : ListEntitiesCameraResponse)
      → Lists EntityDomain.camera
          (Message.list_entities_camera_response m)
          m.key
          m.name
          (camera_entity m)
  lists_climate :
      (m : ListEntitiesClimateResponse)
      → Lists EntityDomain.climate
          (Message.list_entities_climate_response m)
          m.key
          m.name
          (climate_entity m)
  lists_number :
      (m : ListEntitiesNumberResponse)
      → Lists EntityDomain.number
          (Message.list_entities_number_response m)
          m.key
          m.name
          (number_entity m)
  lists_select :
      (m : ListEntitiesSelectResponse)
      → Lists EntityDomain.select
          (Message.list_entities_select_response m)
          m.key
          m.name
          (select_entity m)
  lists_siren :
      (m : ListEntitiesSirenResponse)
      → Lists EntityDomain.siren
          (Message.list_entities_siren_response m)
          m.key
          m.name
          (siren_entity m)
  lists_lock :
      (m : ListEntitiesLockResponse)
      → Lists EntityDomain.lock (Message.list_entities_lock_response m) m.key m.name (lock_entity m)
  lists_button :
      (m : ListEntitiesButtonResponse)
      → Lists EntityDomain.button
          (Message.list_entities_button_response m)
          m.key
          m.name
          (button_entity m)
  lists_media_player :
      (m : ListEntitiesMediaPlayerResponse)
      → Lists EntityDomain.media_player
          (Message.list_entities_media_player_response m)
          m.key
          m.name
          (media_player_entity m)
  lists_water_heater :
      (m : ListEntitiesWaterHeaterResponse)
      → Lists EntityDomain.water_heater
          (Message.list_entities_water_heater_response m)
          m.key
          m.name
          (water_heater_entity m)

-- A message with the state of an entity of the domain, the key, and what it does to the object.
pub data Updates : (d : EntityDomain) → Message → ℕ → (EntityOf d → EntityOf d) → Type 0 where
  updates_sensor :
      (m : SensorStateResponse)
      → Updates EntityDomain.sensor (Message.sensor_state_response m) m.key (update_sensor m)
  updates_binary_sensor :
      (m : BinarySensorStateResponse)
      → Updates EntityDomain.binary_sensor
          (Message.binary_sensor_state_response m)
          m.key
          (update_binary_sensor m)
  updates_cover :
      (m : CoverStateResponse)
      → Updates EntityDomain.cover (Message.cover_state_response m) m.key (update_cover m)
  updates_fan :
      (m : FanStateResponse)
      → Updates EntityDomain.fan (Message.fan_state_response m) m.key (update_fan m)
  updates_light :
      (m : LightStateResponse)
      → Updates EntityDomain.light (Message.light_state_response m) m.key (update_light m)
  updates_switch :
      (m : SwitchStateResponse)
      → Updates EntityDomain.switch (Message.switch_state_response m) m.key (update_switch m)
  updates_text_sensor :
      (m : TextSensorStateResponse)
      → Updates EntityDomain.text_sensor
          (Message.text_sensor_state_response m)
          m.key
          (update_text_sensor m)
  updates_camera :
      (m : CameraImageResponse)
      → Updates EntityDomain.camera (Message.camera_image_response m) m.key (update_camera m)
  updates_climate :
      (m : ClimateStateResponse)
      → Updates EntityDomain.climate (Message.climate_state_response m) m.key (update_climate m)
  updates_number :
      (m : NumberStateResponse)
      → Updates EntityDomain.number (Message.number_state_response m) m.key (update_number m)
  updates_select :
      (m : SelectStateResponse)
      → Updates EntityDomain.select (Message.select_state_response m) m.key (update_select m)
  updates_siren :
      (m : SirenStateResponse)
      → Updates EntityDomain.siren (Message.siren_state_response m) m.key (update_siren m)
  updates_lock :
      (m : LockStateResponse)
      → Updates EntityDomain.lock (Message.lock_state_response m) m.key (update_lock m)
  updates_media_player :
      (m : MediaPlayerStateResponse)
      → Updates EntityDomain.media_player
          (Message.media_player_state_response m)
          m.key
          (update_media_player m)
  updates_water_heater :
      (m : WaterHeaterStateResponse)
      → Updates EntityDomain.water_heater
          (Message.water_heater_state_response m)
          m.key
          (update_water_heater m)

pub Lists-key :
    {d : EntityDomain} {m : Message} {k : ℕ} {n : String} {v : EntityOf d}
    → Lists d m k n v
    → key_of d v ≡ k
unfolding sensor_entity binary_sensor_entity cover_entity fan_entity light_entity switch_entity
    text_sensor_entity camera_entity climate_entity number_entity select_entity siren_entity
    lock_entity button_entity media_player_entity water_heater_entity
Lists-key (lists_sensor m) = refl
Lists-key (lists_binary_sensor m) = refl
Lists-key (lists_cover m) = refl
Lists-key (lists_fan m) = refl
Lists-key (lists_light m) = refl
Lists-key (lists_switch m) = refl
Lists-key (lists_text_sensor m) = refl
Lists-key (lists_camera m) = refl
Lists-key (lists_climate m) = refl
Lists-key (lists_number m) = refl
Lists-key (lists_select m) = refl
Lists-key (lists_siren m) = refl
Lists-key (lists_lock m) = refl
Lists-key (lists_button m) = refl
Lists-key (lists_media_player m) = refl
Lists-key (lists_water_heater m) = refl

pub Lists-name :
    {d : EntityDomain} {m : Message} {k : ℕ} {n : String} {v : EntityOf d}
    → Lists d m k n v
    → name_of d v ≡ n
unfolding sensor_entity binary_sensor_entity cover_entity fan_entity light_entity switch_entity
    text_sensor_entity camera_entity climate_entity number_entity select_entity siren_entity
    lock_entity button_entity media_player_entity water_heater_entity
Lists-name (lists_sensor m) = refl
Lists-name (lists_binary_sensor m) = refl
Lists-name (lists_cover m) = refl
Lists-name (lists_fan m) = refl
Lists-name (lists_light m) = refl
Lists-name (lists_switch m) = refl
Lists-name (lists_text_sensor m) = refl
Lists-name (lists_camera m) = refl
Lists-name (lists_climate m) = refl
Lists-name (lists_number m) = refl
Lists-name (lists_select m) = refl
Lists-name (lists_siren m) = refl
Lists-name (lists_lock m) = refl
Lists-name (lists_button m) = refl
Lists-name (lists_media_player m) = refl
Lists-name (lists_water_heater m) = refl

pub Updates-Keeps :
    {d : EntityDomain} {m : Message} {k : ℕ} {f : EntityOf d → EntityOf d}
    → Updates d m k f
    → Keeps d f
unfolding update_sensor update_binary_sensor update_cover update_fan update_light update_switch
    update_text_sensor update_camera update_climate update_number update_select update_siren
    update_lock update_media_player update_water_heater
Updates-Keeps (updates_sensor m) = record { key_kept = λ v. refl; name_kept = λ v. refl }
Updates-Keeps (updates_binary_sensor m) = record { key_kept = λ v. refl; name_kept = λ v. refl }
Updates-Keeps (updates_cover m) = record { key_kept = λ v. refl; name_kept = λ v. refl }
Updates-Keeps (updates_fan m) = record { key_kept = λ v. refl; name_kept = λ v. refl }
Updates-Keeps (updates_light m) = record { key_kept = λ v. refl; name_kept = λ v. refl }
Updates-Keeps (updates_switch m) = record { key_kept = λ v. refl; name_kept = λ v. refl }
Updates-Keeps (updates_text_sensor m) = record { key_kept = λ v. refl; name_kept = λ v. refl }
Updates-Keeps (updates_camera m) = record { key_kept = λ v. refl; name_kept = λ v. refl }
Updates-Keeps (updates_climate m) = record { key_kept = λ v. refl; name_kept = λ v. refl }
Updates-Keeps (updates_number m) = record { key_kept = λ v. refl; name_kept = λ v. refl }
Updates-Keeps (updates_select m) = record { key_kept = λ v. refl; name_kept = λ v. refl }
Updates-Keeps (updates_siren m) = record { key_kept = λ v. refl; name_kept = λ v. refl }
Updates-Keeps (updates_lock m) = record { key_kept = λ v. refl; name_kept = λ v. refl }
Updates-Keeps (updates_media_player m) = record { key_kept = λ v. refl; name_kept = λ v. refl }
Updates-Keeps (updates_water_heater m) = record { key_kept = λ v. refl; name_kept = λ v. refl }
