-- ===== src/Pb/Kind.antt =====
-- The message types of pb.MessageRegistry (pb/registry.go), one constructor for each.

pub data MessageKind : Type 0 where
  hello_request : MessageKind
  hello_response : MessageKind
  authentication_request : MessageKind
  authentication_response : MessageKind
  disconnect_request : MessageKind
  disconnect_response : MessageKind
  ping_request : MessageKind
  ping_response : MessageKind
  device_info_request : MessageKind
  device_info_response : MessageKind
  list_entities_request : MessageKind
  list_entities_binary_sensor_response : MessageKind
  list_entities_cover_response : MessageKind
  list_entities_fan_response : MessageKind
  list_entities_light_response : MessageKind
  list_entities_sensor_response : MessageKind
  list_entities_switch_response : MessageKind
  list_entities_text_sensor_response : MessageKind
  list_entities_done_response : MessageKind
  subscribe_states_request : MessageKind
  binary_sensor_state_response : MessageKind
  cover_state_response : MessageKind
  fan_state_response : MessageKind
  light_state_response : MessageKind
  sensor_state_response : MessageKind
  switch_state_response : MessageKind
  text_sensor_state_response : MessageKind
  subscribe_logs_request : MessageKind
  subscribe_logs_response : MessageKind
  cover_command_request : MessageKind
  fan_command_request : MessageKind
  light_command_request : MessageKind
  switch_command_request : MessageKind
  subscribe_homeassistant_services_request : MessageKind
  homeassistant_action_request : MessageKind
  get_time_request : MessageKind
  get_time_response : MessageKind
  subscribe_home_assistant_states_request : MessageKind
  subscribe_home_assistant_state_response : MessageKind
  home_assistant_state_response : MessageKind
  list_entities_services_response : MessageKind
  execute_service_request : MessageKind
  list_entities_camera_response : MessageKind
  camera_image_response : MessageKind
  camera_image_request : MessageKind
  list_entities_climate_response : MessageKind
  climate_state_response : MessageKind
  climate_command_request : MessageKind
  list_entities_number_response : MessageKind
  number_state_response : MessageKind
  number_command_request : MessageKind
  list_entities_select_response : MessageKind
  select_state_response : MessageKind
  select_command_request : MessageKind
  list_entities_siren_response : MessageKind
  siren_state_response : MessageKind
  siren_command_request : MessageKind
  list_entities_lock_response : MessageKind
  lock_state_response : MessageKind
  lock_command_request : MessageKind
  list_entities_button_response : MessageKind
  button_command_request : MessageKind
  list_entities_media_player_response : MessageKind
  media_player_state_response : MessageKind
  media_player_command_request : MessageKind
  subscribe_bluetooth_le_advertisements_request : MessageKind
  bluetooth_le_advertisement_response : MessageKind
  bluetooth_device_request : MessageKind
  bluetooth_device_connection_response : MessageKind
  bluetooth_gatt_get_services_request : MessageKind
  bluetooth_gatt_get_services_response : MessageKind
  bluetooth_gatt_get_services_done_response : MessageKind
  bluetooth_gatt_read_request : MessageKind
  bluetooth_gatt_read_response : MessageKind
  bluetooth_gatt_write_request : MessageKind
  bluetooth_gatt_read_descriptor_request : MessageKind
  bluetooth_gatt_write_descriptor_request : MessageKind
  bluetooth_gatt_notify_request : MessageKind
  bluetooth_gatt_notify_data_response : MessageKind
  subscribe_bluetooth_connections_free_request : MessageKind
  bluetooth_connections_free_response : MessageKind
  bluetooth_gatt_error_response : MessageKind
  bluetooth_gatt_write_response : MessageKind
  bluetooth_gatt_notify_response : MessageKind
  bluetooth_device_pairing_response : MessageKind
  bluetooth_device_unpairing_response : MessageKind
  unsubscribe_bluetooth_le_advertisements_request : MessageKind
  bluetooth_device_clear_cache_response : MessageKind
  subscribe_voice_assistant_request : MessageKind
  voice_assistant_request : MessageKind
  voice_assistant_response : MessageKind
  voice_assistant_event_response : MessageKind
  bluetooth_le_raw_advertisements_response : MessageKind
  voice_assistant_audio : MessageKind
  voice_assistant_timer_event_response : MessageKind
  voice_assistant_announce_request : MessageKind
  voice_assistant_announce_finished : MessageKind
  noise_encryption_set_key_request : MessageKind
  noise_encryption_set_key_response : MessageKind
  bluetooth_scanner_state_response : MessageKind
  bluetooth_scanner_set_mode_request : MessageKind
  homeassistant_action_response : MessageKind
  execute_service_response : MessageKind
  list_entities_water_heater_response : MessageKind
  water_heater_state_response : MessageKind
  water_heater_command_request : MessageKind
