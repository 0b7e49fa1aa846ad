-- ===== src/Pb/Registry.antt =====
-- pb/registry.go: the message type ids, and the message that each id stands for.
use esphome_apiclient.Common.{ℕ, List, [], ◌∷◌}
use esphome_apiclient.Common.Maps.{Map}
use esphome_apiclient.Pb.Kind.{MessageKind}

-- ListEntityResponseIDs
abbrev pub list_entity_response_ids : List ℕ
list_entity_response_ids =
    12 ∷ 13 ∷ 14 ∷ 15 ∷ 16 ∷ 17 ∷ 18 ∷ 41 ∷ 43 ∷ 46 ∷ 49 ∷ 52 ∷ 55 ∷ 58 ∷ 61 ∷ 63 ∷ 132 ∷ []

-- StateResponseIDs
abbrev pub state_response_ids : List ℕ
state_response_ids = 21 ∷ 22 ∷ 23 ∷ 24 ∷ 25 ∷ 26 ∷ 27 ∷ 44 ∷ 47 ∷ 50 ∷ 53 ∷ 56 ∷ 59 ∷ 64 ∷ 133 ∷ []

abbrev pub list_entities_done_response_id : ℕ
list_entities_done_response_id = 19

-- MessageRegistry, which gives the type of message that its factory makes.
unfoldable pub message_registry : Map ℕ MessageKind
message_registry =
    (1, MessageKind.hello_request)
    ∷ (2, MessageKind.hello_response)
    ∷ (3, MessageKind.authentication_request)
    ∷ (4, MessageKind.authentication_response)
    ∷ (5, MessageKind.disconnect_request)
    ∷ (6, MessageKind.disconnect_response)
    ∷ (7, MessageKind.ping_request)
    ∷ (8, MessageKind.ping_response)
    ∷ (9, MessageKind.device_info_request)
    ∷ (10, MessageKind.device_info_response)
    ∷ (11, MessageKind.list_entities_request)
    ∷ (12, MessageKind.list_entities_binary_sensor_response)
    ∷ (13, MessageKind.list_entities_cover_response)
    ∷ (14, MessageKind.list_entities_fan_response)
    ∷ (15, MessageKind.list_entities_light_response)
    ∷ (16, MessageKind.list_entities_sensor_response)
    ∷ (17, MessageKind.list_entities_switch_response)
    ∷ (18, MessageKind.list_entities_text_sensor_response)
    ∷ (19, MessageKind.list_entities_done_response)
    ∷ (20, MessageKind.subscribe_states_request)
    ∷ (21, MessageKind.binary_sensor_state_response)
    ∷ (22, MessageKind.cover_state_response)
    ∷ (23, MessageKind.fan_state_response)
    ∷ (24, MessageKind.light_state_response)
    ∷ (25, MessageKind.sensor_state_response)
    ∷ (26, MessageKind.switch_state_response)
    ∷ (27, MessageKind.text_sensor_state_response)
    ∷ (28, MessageKind.subscribe_logs_request)
    ∷ (29, MessageKind.subscribe_logs_response)
    ∷ (30, MessageKind.cover_command_request)
    ∷ (31, MessageKind.fan_command_request)
    ∷ (32, MessageKind.light_command_request)
    ∷ (33, MessageKind.switch_command_request)
    ∷ (34, MessageKind.subscribe_homeassistant_services_request)
    ∷ (35, MessageKind.homeassistant_action_request)
    ∷ (36, MessageKind.get_time_request)
    ∷ (37, MessageKind.get_time_response)
    ∷ (38, MessageKind.subscribe_home_assistant_states_request)
    ∷ (39, MessageKind.subscribe_home_assistant_state_response)
    ∷ (40, MessageKind.home_assistant_state_response)
    ∷ (41, MessageKind.list_entities_services_response)
    ∷ (42, MessageKind.execute_service_request)
    ∷ (43, MessageKind.list_entities_camera_response)
    ∷ (44, MessageKind.camera_image_response)
    ∷ (45, MessageKind.camera_image_request)
    ∷ (46, MessageKind.list_entities_climate_response)
    ∷ (47, MessageKind.climate_state_response)
    ∷ (48, MessageKind.climate_command_request)
    ∷ (49, MessageKind.list_entities_number_response)
    ∷ (50, MessageKind.number_state_response)
    ∷ (51, MessageKind.number_command_request)
    ∷ (52, MessageKind.list_entities_select_response)
    ∷ (53, MessageKind.select_state_response)
    ∷ (54, MessageKind.select_command_request)
    ∷ (55, MessageKind.list_entities_siren_response)
    ∷ (56, MessageKind.siren_state_response)
    ∷ (57, MessageKind.siren_command_request)
    ∷ (58, MessageKind.list_entities_lock_response)
    ∷ (59, MessageKind.lock_state_response)
    ∷ (60, MessageKind.lock_command_request)
    ∷ (61, MessageKind.list_entities_button_response)
    ∷ (62, MessageKind.button_command_request)
    ∷ (63, MessageKind.list_entities_media_player_response)
    ∷ (64, MessageKind.media_player_state_response)
    ∷ (65, MessageKind.media_player_command_request)
    ∷ (66, MessageKind.subscribe_bluetooth_le_advertisements_request)
    ∷ (67, MessageKind.bluetooth_le_advertisement_response)
    ∷ (68, MessageKind.bluetooth_device_request)
    ∷ (69, MessageKind.bluetooth_device_connection_response)
    ∷ (70, MessageKind.bluetooth_gatt_get_services_request)
    ∷ (71, MessageKind.bluetooth_gatt_get_services_response)
    ∷ (72, MessageKind.bluetooth_gatt_get_services_done_response)
    ∷ (73, MessageKind.bluetooth_gatt_read_request)
    ∷ (74, MessageKind.bluetooth_gatt_read_response)
    ∷ (75, MessageKind.bluetooth_gatt_write_request)
    ∷ (76, MessageKind.bluetooth_gatt_read_descriptor_request)
    ∷ (77, MessageKind.bluetooth_gatt_write_descriptor_request)
    ∷ (78, MessageKind.bluetooth_gatt_notify_request)
    ∷ (79, MessageKind.bluetooth_gatt_notify_data_response)
    ∷ (80, MessageKind.subscribe_bluetooth_connections_free_request)
    ∷ (81, MessageKind.bluetooth_connections_free_response)
    ∷ (82, MessageKind.bluetooth_gatt_error_response)
    ∷ (83, MessageKind.bluetooth_gatt_write_response)
    ∷ (84, MessageKind.bluetooth_gatt_notify_response)
    ∷ (85, MessageKind.bluetooth_device_pairing_response)
    ∷ (86, MessageKind.bluetooth_device_unpairing_response)
    ∷ (87, MessageKind.unsubscribe_bluetooth_le_advertisements_request)
    ∷ (88, MessageKind.bluetooth_device_clear_cache_response)
    ∷ (89, MessageKind.subscribe_voice_assistant_request)
    ∷ (90, MessageKind.voice_assistant_request)
    ∷ (91, MessageKind.voice_assistant_response)
    ∷ (92, MessageKind.voice_assistant_event_response)
    ∷ (93, MessageKind.bluetooth_le_raw_advertisements_response)
    ∷ (106, MessageKind.voice_assistant_audio)
    ∷ (115, MessageKind.voice_assistant_timer_event_response)
    ∷ (119, MessageKind.voice_assistant_announce_request)
    ∷ (120, MessageKind.voice_assistant_announce_finished)
    ∷ (124, MessageKind.noise_encryption_set_key_request)
    ∷ (125, MessageKind.noise_encryption_set_key_response)
    ∷ (126, MessageKind.bluetooth_scanner_state_response)
    ∷ (127, MessageKind.bluetooth_scanner_set_mode_request)
    ∷ (130, MessageKind.homeassistant_action_response)
    ∷ (131, MessageKind.execute_service_response)
    ∷ (132, MessageKind.list_entities_water_heater_response)
    ∷ (133, MessageKind.water_heater_state_response)
    ∷ (134, MessageKind.water_heater_command_request)
    ∷ []
