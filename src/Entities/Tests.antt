-- ===== src/Entities/Tests.antt =====
-- entities.go: a sensor that is listed, listed again under another name, and reports; a camera with an image
-- in two messages.
use esphome_apiclient.Common.{
  ℕ, String, ◌≡◌, ◌≢◌, ◌⊎◌, inr, refl, none, some, Bool, true, false, List, [], ◌∷◌, ◌++◌, nat_key,
  string_key,
}
use esphome_apiclient.Common.Maps.{lookup}
use esphome_apiclient.Pb.Message.{Message}
use esphome_apiclient.Pb.Listing.{ListEntitiesSensorResponse}
use esphome_apiclient.Pb.States.{SensorStateResponse, CameraImageResponse}
use esphome_apiclient.Entities.Domain.{EntityDomain}
use esphome_apiclient.Entities.Registry.{EntityRegistry, table, new_entity_registry}
use esphome_apiclient.Entities.Handle.{
  by_key, by_name, handle_list_entity_message, handle_state_message,
}
use esphome_apiclient.Entities.Readings.{CameraEntity, sensor_entity, update_sensor}
use esphome_apiclient.Entities.Validity.{IsValid}
use esphome_apiclient.Entities.Messages.{lists_sensor, updates_sensor}
use esphome_apiclient.Entities.History.{Event, listed, stated, cleared, run, run-IsValid}
use esphome_apiclient.Entities.States.{state-listed, state-relisted, handle_state_effect}
use esphome_apiclient.Entities.Frames.{receive, last_chunk, more_chunks, receive-Image}

abbrev listing : String → ListEntitiesSensorResponse
listing n = record {
  object_id = "temperature";
  key = 7;
  name = n;
  icon = "";
  unit_of_measurement = "C";
  accuracy_decimals = 1;
  force_update = false;
  device_class = "temperature";
  state_class = 1;
  legacy_last_reset_type = 0;
  disabled_by_default = false;
  entity_category = 0;
  device_id = 0;
}

abbrev reading : SensorStateResponse
reading = record { key = 7; state = 1_101_004_800; missing_state = false; device_id = 0 }

abbrev lists : Message
lists = Message.list_entities_sensor_response (listing "inside")

abbrev lists_again : Message
lists_again = Message.list_entities_sensor_response (listing "outside")

abbrev states : Message
states = Message.sensor_state_response reading

abbrev events : List Event
events = listed lists ∷ stated states ∷ cleared ∷ listed lists_again ∷ []

run-IsValid_example : IsValid (run events new_entity_registry)
run-IsValid_example = run-IsValid events

abbrev before : EntityRegistry
before = run (listed lists ∷ []) new_entity_registry

state-listed_example :
    let (r', done) = handle_state_message states (handle_list_entity_message lists before).0 in
    (a : ℕ) × (done ≡ true)
    × (by_key 7 r' ≡ some (record { domain = EntityDomain.sensor; address = a }))
    × (by_name "inside" r' ≡ some (record { domain = EntityDomain.sensor; address = a }))
    × (lookup a (table EntityDomain.sensor r'.tables).objects
        ≡ some (update_sensor reading (sensor_entity (listing "inside"))))
state-listed_example =
    state-listed before (run-IsValid (listed lists ∷ [])) (lists_sensor (listing "inside"))
      (updates_sensor reading)

state-relisted_example :
    let r' =
      (handle_state_message states
        (handle_list_entity_message lists_again (handle_list_entity_message lists before).0).0).0 in
    (a b : ℕ) × (a ≢ b)
    × (by_name "inside" r' ≡ some (record { domain = EntityDomain.sensor; address = a }))
    × (lookup a (table EntityDomain.sensor r'.tables).objects
        ≡ some (sensor_entity (listing "inside")))
    × (by_name "outside" r' ≡ some (record { domain = EntityDomain.sensor; address = b }))
    × (lookup b (table EntityDomain.sensor r'.tables).objects
        ≡ some (update_sensor reading (sensor_entity (listing "outside"))))
state-relisted_example =
    state-relisted before (run-IsValid (listed lists ∷ [])) (lists_sensor (listing "inside"))
      (lists_sensor (listing "outside")) (λ e. cc) (updates_sensor reading)

handle_state_effect_example :
    let (r', done) = handle_state_message states before in
    (lookup 7 (table EntityDomain.sensor before.tables).index ≡ none
      → (done ≡ false) × (r' ≡ before))
    × ((a : ℕ) (v : _)
        → lookup 7 (table EntityDomain.sensor before.tables).index ≡ some a
        → lookup a (table EntityDomain.sensor before.tables).objects ≡ some v
        → (done ≡ true)
          × (lookup a (table EntityDomain.sensor r'.tables).objects
              ≡ some (update_sensor reading v))
          × (r'.by_key ≡ before.by_key)
          × (r'.by_name ≡ before.by_name)
          × ((d' : EntityDomain) → (table d' r'.tables).index ≡ (table d' before.tables).index)
          × (r'.next ≡ before.next)
          × ((d' : EntityDomain) (b : ℕ)
              → (d' ≢ EntityDomain.sensor) ⊎ (b ≢ a)
              → lookup b (table d' r'.tables).objects ≡ lookup b (table d' before.tables).objects))
handle_state_effect_example =
    handle_state_effect before (run-IsValid (listed lists ∷ [])) (updates_sensor reading)

abbrev part : List ℕ → Bool → CameraImageResponse
part cs done = record { key = 9; content = some cs; done = done; device_id = 0 }

abbrev camera : CameraEntity
camera = record {
  key = 9;
  object_id = "door";
  name = "door";
  icon = "";
  disabled_by_default = false;
  entity_category = 0;
  device_id = 0;
  image_data = none;
  image_done = false;
}

abbrev parts : List CameraImageResponse
parts = part (255 ∷ 216 ∷ []) false ∷ part (255 ∷ 217 ∷ []) true ∷ []

receive-Image_example :
    ((receive parts camera).image_data ≡ some ((255 ∷ 216 ∷ []) ++ (255 ∷ 217 ∷ [])))
    × ((receive parts camera).image_done ≡ true)
receive-Image_example =
    receive-Image camera
      (more_chunks (part (255 ∷ 216 ∷ []) false) (255 ∷ 216 ∷ []) (part (255 ∷ 217 ∷ []) true ∷ [])
        (255 ∷ 217 ∷ []) refl refl
        (last_chunk (part (255 ∷ 217 ∷ []) true) (255 ∷ 217 ∷ []) refl refl))
      (inr refl)
