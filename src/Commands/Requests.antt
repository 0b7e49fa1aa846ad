-- ===== src/Commands/Requests.antt =====
-- commands.go: the request message that each command builds.
use esphome_apiclient.Common.{String, Bool, false}
use esphome_apiclient.Pb.Types.{Enum, Float32, UInt32}
use esphome_apiclient.Common.{not, ◌==◌, string_key}
use esphome_apiclient.Pb.Commands.{
  SwitchCommandRequest, LightCommandRequest, ClimateCommandRequest, NumberCommandRequest,
  SelectCommandRequest, ButtonCommandRequest, CoverCommandRequest, FanCommandRequest,
  SirenCommandRequest, MediaPlayerCommandRequest, LockCommandRequest,
}
use esphome_apiclient.Commands.Options.{
  LightCommandOpts, ClimateCommandOpts, CoverCommandOpts, FanCommandOpts, SirenCommandOpts,
  MediaPlayerCommandOpts,
}

-- The request of SetSwitch; what it does not name is zero.
unfoldable pub switch_request : UInt32 → Bool → SwitchCommandRequest
switch_request k state = record { key = k; state = state; device_id = 0 }

-- The request of SetLight; what it does not name is zero.
unfoldable pub light_request : UInt32 → LightCommandOpts → LightCommandRequest
light_request k opts = record {
  key = k;
  has_state = opts.has_state;
  state = opts.state;
  has_brightness = opts.has_brightness;
  brightness = opts.brightness;
  has_color_mode = opts.has_color_mode;
  color_mode = opts.color_mode;
  has_color_brightness = opts.has_color_brightness;
  color_brightness = opts.color_brightness;
  has_rgb = opts.has_rgb;
  red = opts.red;
  green = opts.green;
  blue = opts.blue;
  has_white = opts.has_white;
  white = opts.white;
  has_color_temperature = opts.has_color_temperature;
  color_temperature = opts.color_temperature;
  has_cold_white = opts.has_cold_white;
  cold_white = opts.cold_white;
  has_warm_white = opts.has_warm_white;
  warm_white = opts.warm_white;
  has_transition_length = opts.has_transition_length;
  transition_length = opts.transition_length;
  has_flash_length = opts.has_flash_length;
  flash_length = opts.flash_length;
  has_effect = opts.has_effect;
  effect = opts.effect;
  device_id = 0;
}

-- The request of SetClimate; what it does not name is zero.
unfoldable pub climate_request : UInt32 → ClimateCommandOpts → ClimateCommandRequest
climate_request k opts = record {
  key = k;
  has_mode = opts.has_mode;
  mode = opts.mode;
  has_target_temperature = opts.has_target_temperature;
  target_temperature = opts.target_temperature;
  has_target_temperature_low = opts.has_target_temperature_low;
  target_temperature_low = opts.target_temperature_low;
  has_target_temperature_high = opts.has_target_temperature_high;
  target_temperature_high = opts.target_temperature_high;
  unused_has_legacy_away = false;
  unused_legacy_away = false;
  has_fan_mode = opts.has_fan_mode;
  fan_mode = opts.fan_mode;
  has_swing_mode = opts.has_swing_mode;
  swing_mode = opts.swing_mode;
  has_custom_fan_mode = opts.has_custom_fan_mode;
  custom_fan_mode = opts.custom_fan_mode;
  has_preset = opts.has_preset;
  preset = opts.preset;
  has_custom_preset = opts.has_custom_preset;
  custom_preset = opts.custom_preset;
  has_target_humidity = opts.has_target_humidity;
  target_humidity = opts.target_humidity;
  device_id = 0;
}

-- The request of SetNumber; what it does not name is zero.
unfoldable pub number_request : UInt32 → Float32 → NumberCommandRequest
number_request k value = record { key = k; state = value; device_id = 0 }

-- The request of SetSelect; what it does not name is zero.
unfoldable pub select_request : UInt32 → String → SelectCommandRequest
select_request k value = record { key = k; state = value; device_id = 0 }

-- The request of PressButton; what it does not name is zero.
unfoldable pub button_request : UInt32 → ButtonCommandRequest
button_request k = record { key = k; device_id = 0 }

-- The request of SetCover; what it does not name is zero.
unfoldable pub cover_request : UInt32 → CoverCommandOpts → CoverCommandRequest
cover_request k opts = record {
  key = k;
  has_legacy_command = false;
  legacy_command = 0;
  has_position = opts.has_position;
  position = opts.position;
  has_tilt = opts.has_tilt;
  tilt = opts.tilt;
  stop = opts.stop;
  device_id = 0;
}

-- The request of SetFan; what it does not name is zero.
unfoldable pub fan_request : UInt32 → FanCommandOpts → FanCommandRequest
fan_request k opts = record {
  key = k;
  has_state = opts.has_state;
  state = opts.state;
  has_speed = false;
  speed = 0;
  has_oscillating = opts.has_oscillating;
  oscillating = opts.oscillating;
  has_direction = opts.has_direction;
  direction = opts.direction;
  has_speed_level = opts.has_speed_level;
  speed_level = opts.speed_level;
  has_preset_mode = opts.has_preset_mode;
  preset_mode = opts.preset_mode;
  device_id = 0;
}

-- The request of SetSiren; what it does not name is zero.
unfoldable pub siren_request : UInt32 → SirenCommandOpts → SirenCommandRequest
siren_request k opts = record {
  key = k;
  has_state = opts.has_state;
  state = opts.state;
  has_tone = opts.has_tone;
  tone = opts.tone;
  has_duration = opts.has_duration;
  duration = opts.duration;
  has_volume = opts.has_volume;
  volume = opts.volume;
  device_id = 0;
}

-- The request of SetMediaPlayer; what it does not name is zero.
unfoldable pub media_player_request : UInt32 → MediaPlayerCommandOpts → MediaPlayerCommandRequest
media_player_request k opts = record {
  key = k;
  has_command = opts.has_command;
  command = opts.command;
  has_volume = opts.has_volume;
  volume = opts.volume;
  has_media_url = opts.has_media_url;
  media_url = opts.media_url;
  has_announcement = opts.has_announcement;
  announcement = opts.announcement;
  device_id = 0;
}

-- The request of SetLock: a code is sent unless it is empty.
unfoldable pub lock_request : UInt32 → Enum → String → LockCommandRequest
lock_request k command code = record {
  key = k;
  command = command;
  has_code = not (code == "");
  code = code;
  device_id = 0;
}
