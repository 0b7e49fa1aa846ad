-- ===== src/Pb/Message.antt =====
-- proto.Message (pb/api.pb.go): a constructor for each message of the registry. Those that the client
-- takes apart or builds have their fields, the others their encoded fields.
use esphome_apiclient.Common.{ℕ, List}
use esphome_apiclient.Pb.Kind.{MessageKind}
use esphome_apiclient.Pb.Listing.{
  ListEntitiesSensorResponse, ListEntitiesBinarySensorResponse, ListEntitiesTextSensorResponse,
  ListEntitiesCameraResponse, ListEntitiesCoverResponse, ListEntitiesFanResponse,
  ListEntitiesLightResponse, ListEntitiesSwitchResponse, ListEntitiesNumberResponse,
  ListEntitiesSelectResponse, ListEntitiesSirenResponse, ListEntitiesLockResponse,
  ListEntitiesButtonResponse, ListEntitiesMediaPlayerResponse, ListEntitiesClimateResponse,
  ListEntitiesWaterHeaterResponse, ListEntitiesServicesResponse,
}
use esphome_apiclient.Pb.States.{
  SensorStateResponse, BinarySensorStateResponse, CoverStateResponse, FanStateResponse,
  LightStateResponse, SwitchStateResponse, TextSensorStateResponse, CameraImageResponse,
  ClimateStateResponse, NumberStateResponse, SelectStateResponse, SirenStateResponse,
  LockStateResponse, MediaPlayerStateResponse, WaterHeaterStateResponse,
}
use esphome_apiclient.Pb.Commands.{
  CoverCommandRequest, FanCommandRequest, LightCommandRequest, SwitchCommandRequest,
  ClimateCommandRequest, NumberCommandRequest, SelectCommandRequest, SirenCommandRequest,
  LockCommandRequest, ButtonCommandRequest, MediaPlayerCommandRequest, WaterHeaterCommandRequest,
}
use esphome_apiclient.Pb.Session.{
  HelloRequest, HelloResponse, SubscribeLogsRequest, SubscribeLogsResponse, ExecuteServiceRequest,
}
use esphome_apiclient.Pb.Bluetooth.{
  BluetoothDeviceRequest, BluetoothDeviceConnectionResponse, BluetoothGattGetServicesRequest,
  BluetoothGattGetServicesResponse, BluetoothGattGetServicesDoneResponse, BluetoothGattReadRequest,
  BluetoothGattReadResponse, BluetoothGattWriteRequest, BluetoothGattWriteResponse,
  BluetoothGattNotifyRequest, BluetoothGattNotifyResponse, BluetoothGattNotifyDataResponse,
  BluetoothGattErrorResponse, BluetoothConnectionsFreeResponse, BluetoothScannerSetModeRequest,
}

abbrev pub Fields : Type 0
Fields = List ℕ

pub data Message : Type 0 where
  hello_request : HelloRequest → Message
  hello_response : HelloResponse → Message
  authentication_request : Fields → Message
  authentication_response : Fields → Message
  disconnect_request : Fields → Message
  disconnect_response : Fields → Message
  ping_request : Fields → Message
  ping_response : Fields → Message
  device_info_request : Fields → Message
  device_info_response : Fields → Message
  list_entities_request : Fields → Message
  list_entities_binary_sensor_response : ListEntitiesBinarySensorResponse → Message
  list_entities_cover_response : ListEntitiesCoverResponse → Message
  list_entities_fan_response : ListEntitiesFanResponse → Message
  list_entities_light_response : ListEntitiesLightResponse → Message
  list_entities_sensor_response : ListEntitiesSensorResponse → Message
  list_entities_switch_response : ListEntitiesSwitchResponse → Message
  list_entities_text_sensor_response : ListEntitiesTextSensorResponse → Message
  list_entities_done_response : Fields → Message
  subscribe_states_request : Fields → Message
  binary_sensor_state_response : BinarySensorStateResponse → Message
  cover_state_response : CoverStateResponse → Message
  fan_state_response : FanStateResponse → Message
  light_state_response : LightStateResponse → Message
  sensor_state_response : SensorStateResponse → Message
  switch_state_response : SwitchStateResponse → Message
  text_sensor_state_response : TextSensorStateResponse → Message
  subscribe_logs_request : SubscribeLogsRequest → Message
  subscribe_logs_response : SubscribeLogsResponse → Message
  cover_command_request : CoverCommandRequest → Message
  fan_command_request : FanCommandRequest → Message
  light_command_request : LightCommandRequest → Message
  switch_command_request : SwitchCommandRequest → Message
  subscribe_homeassistant_services_request : Fields → Message
  homeassistant_action_request : Fields → Message
  get_time_request : Fields → Message
  get_time_response : Fields → Message
  subscribe_home_assistant_states_request : Fields → Message
  subscribe_home_assistant_state_response : Fields → Message
  home_assistant_state_response : Fields → Message
  list_entities_services_response : ListEntitiesServicesResponse → Message
  execute_service_request : ExecuteServiceRequest → Message
  list_entities_camera_response : ListEntitiesCameraResponse → Message
  camera_image_response : CameraImageResponse → Message
  camera_image_request : Fields → Message
  list_entities_climate_response : ListEntitiesClimateResponse → Message
  climate_state_response : ClimateStateResponse → Message
  climate_command_request : ClimateCommandRequest → Message
  list_entities_number_response : ListEntitiesNumberResponse → Message
  number_state_response : NumberStateResponse → Message
  number_command_request : NumberCommandRequest → Message
  list_entities_select_response : ListEntitiesSelectResponse → Message
  select_state_response : SelectStateResponse → Message
  select_command_request : SelectCommandRequest → Message
  list_entities_siren_response : ListEntitiesSirenResponse → Message
  siren_state_response : SirenStateResponse → Message
  siren_command_request : SirenCommandRequest → Message
  list_entities_lock_response : ListEntitiesLockResponse → Message
  lock_state_response : LockStateResponse → Message
  lock_command_request : LockCommandRequest → Message
  list_entities_button_response : ListEntitiesButtonResponse → Message
  button_command_request : ButtonCommandRequest → Message
  list_entities_media_player_response : ListEntitiesMediaPlayerResponse → Message
  media_player_state_response : MediaPlayerStateResponse → Message
  media_player_command_request : MediaPlayerCommandRequest → Message
  subscribe_bluetooth_le_advertisements_request : Fields → Message
  bluetooth_le_advertisement_response : Fields → Message
  bluetooth_device_request : BluetoothDeviceRequest → Message
  bluetooth_device_connection_response : BluetoothDeviceConnectionResponse → Message
  bluetooth_gatt_get_services_request : BluetoothGattGetServicesRequest → Message
  bluetooth_gatt_get_services_response : BluetoothGattGetServicesResponse → Message
  bluetooth_gatt_get_services_done_response : BluetoothGattGetServicesDoneResponse → Message
  bluetooth_gatt_read_request : BluetoothGattReadRequest → Message
  bluetooth_gatt_read_response : BluetoothGattReadResponse → Message
  bluetooth_gatt_write_request : BluetoothGattWriteRequest → Message
  bluetooth_gatt_read_descriptor_request : Fields → Message
  bluetooth_gatt_write_descriptor_request : Fields → Message
  bluetooth_gatt_notify_request : BluetoothGattNotifyRequest → Message
  bluetooth_gatt_notify_data_response : BluetoothGattNotifyDataResponse → Message
  subscribe_bluetooth_connections_free_request : Fields → Message
  bluetooth_connections_free_response : BluetoothConnectionsFreeResponse → Message
  bluetooth_gatt_error_response : BluetoothGattErrorResponse → Message
  bluetooth_gatt_write_response : BluetoothGattWriteResponse → Message
  bluetooth_gatt_notify_response : BluetoothGattNotifyResponse → Message
  bluetooth_device_pairing_response : Fields → Message
  bluetooth_device_unpairing_response : Fields → Message
  unsubscribe_bluetooth_le_advertisements_request : Fields → Message
  bluetooth_device_clear_cache_response : Fields → Message
  subscribe_voice_assistant_request : Fields → Message
  voice_assistant_request : Fields → Message
  voice_assistant_response : Fields → Message
  voice_assistant_event_response : Fields → Message
  bluetooth_le_raw_advertisements_response : Fields → Message
  voice_assistant_audio : Fields → Message
  voice_assistant_timer_event_response : Fields → Message
  voice_assistant_announce_request : Fields → Message
  voice_assistant_announce_finished : Fields → Message
  noise_encryption_set_key_request : Fields → Message
  noise_encryption_set_key_response : Fields → Message
  bluetooth_scanner_state_response : Fields → Message
  bluetooth_scanner_set_mode_request : BluetoothScannerSetModeRequest → Message
  homeassistant_action_response : Fields → Message
  execute_service_response : Fields → Message
  list_entities_water_heater_response : ListEntitiesWaterHeaterResponse → Message
  water_heater_state_response : WaterHeaterStateResponse → Message
  water_heater_command_request : WaterHeaterCommandRequest → Message

-- The dynamic type of a message.
unfoldable pub kind : Message → MessageKind
kind (Message.hello_request m) = MessageKind.hello_request
kind (Message.hello_response m) = MessageKind.hello_response
kind (Message.authentication_request m) = MessageKind.authentication_request
kind (Message.authentication_response m) = MessageKind.authentication_response
kind (Message.disconnect_request m) = MessageKind.disconnect_request
kind (Message.disconnect_response m) = MessageKind.disconnect_response
kind (Message.ping_request m) = MessageKind.ping_request
kind (Message.ping_response m) = MessageKind.ping_response
kind (Message.device_info_request m) = MessageKind.device_info_request
kind (Message.device_info_response m) = MessageKind.device_info_response
kind (Message.list_entities_request m) = MessageKind.list_entities_request
kind (Message.list_entities_binary_sensor_response m) =
    MessageKind.list_entities_binary_sensor_response
kind (Message.list_entities_cover_response m) = MessageKind.list_entities_cover_response
kind (Message.list_entities_fan_response m) = MessageKind.list_entities_fan_response
kind (Message.list_entities_light_response m) = MessageKind.list_entities_light_response
kind (Message.list_entities_sensor_response m) = MessageKind.list_entities_sensor_response
kind (Message.list_entities_switch_response m) = MessageKind.list_entities_switch_response
kind (Message.list_entities_text_sensor_response m) = MessageKind.list_entities_text_sensor_response
kind (Message.list_entities_done_response m) = MessageKind.list_entities_done_response
kind (Message.subscribe_states_request m) = MessageKind.subscribe_states_request
kind (Message.binary_sensor_state_response m) = MessageKind.binary_sensor_state_response
kind (Message.cover_state_response m) = MessageKind.cover_state_response
kind (Message.fan_state_response m) = MessageKind.fan_state_response
kind (Message.light_state_response m) = MessageKind.light_state_response
kind (Message.sensor_state_response m) = MessageKind.sensor_state_response
kind (Message.switch_state_response m) = MessageKind.switch_state_response
kind (Message.text_sensor_state_response m) = MessageKind.text_sensor_state_response
kind (Message.subscribe_logs_request m) = MessageKind.subscribe_logs_request
kind (Message.subscribe_logs_response m) = MessageKind.subscribe_logs_response
kind (Message.cover_command_request m) = MessageKind.cover_command_request
kind (Message.fan_command_request m) = MessageKind.fan_command_request
kind (Message.light_command_request m) = MessageKind.light_command_request
kind (Message.switch_command_request m) = MessageKind.switch_command_request
kind (Message.subscribe_homeassistant_services_request m) =
    MessageKind.subscribe_homeassistant_services_request
kind (Message.homeassistant_action_request m) = MessageKind.homeassistant_action_request
kind (Message.get_time_request m) = MessageKind.get_time_request
kind (Message.get_time_response m) = MessageKind.get_time_response
kind (Message.subscribe_home_assistant_states_request m) =
    MessageKind.subscribe_home_assistant_states_request
kind (Message.subscribe_home_assistant_state_response m) =
    MessageKind.subscribe_home_assistant_state_response
kind (Message.home_assistant_state_response m) = MessageKind.home_assistant_state_response
kind (Message.list_entities_services_response m) = MessageKind.list_entities_services_response
kind (Message.execute_service_request m) = MessageKind.execute_service_request
kind (Message.list_entities_camera_response m) = MessageKind.list_entities_camera_response
kind (Message.camera_image_response m) = MessageKind.camera_image_response
kind (Message.camera_image_request m) = MessageKind.camera_image_request
kind (Message.list_entities_climate_response m) = MessageKind.list_entities_climate_response
kind (Message.climate_state_response m) = MessageKind.climate_state_response
kind (Message.climate_command_request m) = MessageKind.climate_command_request
kind (Message.list_entities_number_response m) = MessageKind.list_entities_number_response
kind (Message.number_state_response m) = MessageKind.number_state_response
kind (Message.number_command_request m) = MessageKind.number_command_request
kind (Message.list_entities_select_response m) = MessageKind.list_entities_select_response
kind (Message.select_state_response m) = MessageKind.select_state_response
kind (Message.select_command_request m) = MessageKind.select_command_request
kind (Message.list_entities_siren_response m) = MessageKind.list_entities_siren_response
kind (Message.siren_state_response m) = MessageKind.siren_state_response
kind (Message.siren_command_request m) = MessageKind.siren_command_request
kind (Message.list_entities_lock_response m) = MessageKind.list_entities_lock_response
kind (Message.lock_state_response m) = MessageKind.lock_state_response
kind (Message.lock_command_request m) = MessageKind.lock_command_request
kind (Message.list_entities_button_response m) = MessageKind.list_entities_button_response
kind (Message.button_command_request m) = MessageKind.button_command_request
kind (Message.list_entities_media_player_response m) =
    MessageKind.list_entities_media_player_response
kind (Message.media_player_state_response m) = MessageKind.media_player_state_response
kind (Message.media_player_command_request m) = MessageKind.media_player_command_request
kind (Message.subscribe_bluetooth_le_advertisements_request m) =
    MessageKind.subscribe_bluetooth_le_advertisements_request
kind (Message.bluetooth_le_advertisement_response m) =
    MessageKind.bluetooth_le_advertisement_response
kind (Message.bluetooth_device_request m) = MessageKind.bluetooth_device_request
kind (Message.bluetooth_device_connection_response m) =
    MessageKind.bluetooth_device_connection_response
kind (Message.bluetooth_gatt_get_services_request m) =
    MessageKind.bluetooth_gatt_get_services_request
kind (Message.bluetooth_gatt_get_services_response m) =
    MessageKind.bluetooth_gatt_get_services_response
kind (Message.bluetooth_gatt_get_services_done_response m) =
    MessageKind.bluetooth_gatt_get_services_done_response
kind (Message.bluetooth_gatt_read_request m) = MessageKind.bluetooth_gatt_read_request
kind (Message.bluetooth_gatt_read_response m) = MessageKind.bluetooth_gatt_read_response
kind (Message.bluetooth_gatt_write_request m) = MessageKind.bluetooth_gatt_write_request
kind (Message.bluetooth_gatt_read_descriptor_request m) =
    MessageKind.bluetooth_gatt_read_descriptor_request
kind (Message.bluetooth_gatt_write_descriptor_request m) =
    MessageKind.bluetooth_gatt_write_descriptor_request
kind (Message.bluetooth_gatt_notify_request m) = MessageKind.bluetooth_gatt_notify_request
kind (Message.bluetooth_gatt_notify_data_response m) =
    MessageKind.bluetooth_gatt_notify_data_response
kind (Message.subscribe_bluetooth_connections_free_request m) =
    MessageKind.subscribe_bluetooth_connections_free_request
kind (Message.bluetooth_connections_free_response m) =
    MessageKind.bluetooth_connections_free_response
kind (Message.bluetooth_gatt_error_response m) = MessageKind.bluetooth_gatt_error_response
kind (Message.bluetooth_gatt_write_response m) = MessageKind.bluetooth_gatt_write_response
kind (Message.bluetooth_gatt_notify_response m) = MessageKind.bluetooth_gatt_notify_response
kind (Message.bluetooth_device_pairing_response m) = MessageKind.bluetooth_device_pairing_response
kind (Message.bluetooth_device_unpairing_response m) =
    MessageKind.bluetooth_device_unpairing_response
kind (Message.unsubscribe_bluetooth_le_advertisements_request m) =
    MessageKind.unsubscribe_bluetooth_le_advertisements_request
kind (Message.bluetooth_device_clear_cache_response m) =
    MessageKind.bluetooth_device_clear_cache_response
kind (Message.subscribe_voice_assistant_request m) = MessageKind.subscribe_voice_assistant_request
kind (Message.voice_assistant_request m) = MessageKind.voice_assistant_request
kind (Message.voice_assistant_response m) = MessageKind.voice_assistant_response
kind (Message.voice_assistant_event_response m) = MessageKind.voice_assistant_event_response
kind (Message.bluetooth_le_raw_advertisements_response m) =
    MessageKind.bluetooth_le_raw_advertisements_response
kind (Message.voice_assistant_audio m) = MessageKind.voice_assistant_audio
kind (Message.voice_assistant_timer_event_response m) =
    MessageKind.voice_assistant_timer_event_response
kind (Message.voice_assistant_announce_request m) = MessageKind.voice_assistant_announce_request
kind (Message.voice_assistant_announce_finished m) = MessageKind.voice_assistant_announce_finished
kind (Message.noise_encryption_set_key_request m) = MessageKind.noise_encryption_set_key_request
kind (Message.noise_encryption_set_key_response m) = MessageKind.noise_encryption_set_key_response
kind (Message.bluetooth_scanner_state_response m) = MessageKind.bluetooth_scanner_state_response
kind (Message.bluetooth_scanner_set_mode_request m) = MessageKind.bluetooth_scanner_set_mode_request
kind (Message.homeassistant_action_response m) = MessageKind.homeassistant_action_response
kind (Message.execute_service_response m) = MessageKind.execute_service_response
kind (Message.list_entities_water_heater_response m) =
    MessageKind.list_entities_water_heater_response
kind (Message.water_heater_state_response m) = MessageKind.water_heater_state_response
kind (Message.water_heater_command_request m) = MessageKind.water_heater_command_request
