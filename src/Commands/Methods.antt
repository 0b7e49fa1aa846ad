-- ===== src/Commands/Methods.antt =====
-- commands.go: SetSwitch, SetLight and the other methods as one data type, each with the entity that it is
-- for and the message that it builds.
use esphome_apiclient.Common.{String, Bool, true, false}
use esphome_apiclient.Pb.Types.{Enum, Float32, UInt32}
use esphome_apiclient.Pb.Message.{Message}
use esphome_apiclient.Entities.Domain.{EntityDomain}
use esphome_apiclient.Commands.Options.{
  LightCommandOpts, ClimateCommandOpts, CoverCommandOpts, FanCommandOpts, SirenCommandOpts,
  MediaPlayerCommandOpts,
}
use esphome_apiclient.Commands.Requests.{
  switch_request, light_request, climate_request, number_request, select_request, button_request,
  cover_request, fan_request, siren_request, media_player_request, lock_request,
}

-- The methods of Client that command an entity, with their arguments.
pub data Command : Type 0 where
  set_switch : UInt32 → Bool → Command
  set_light : UInt32 → LightCommandOpts → Command
  set_climate : UInt32 → ClimateCommandOpts → Command
  set_number : UInt32 → Float32 → Command
  set_select : UInt32 → String → Command
  press_button : UInt32 → Command
  set_cover : UInt32 → CoverCommandOpts → Command
  set_fan : UInt32 → FanCommandOpts → Command
  set_siren : UInt32 → SirenCommandOpts → Command
  set_media_player : UInt32 → MediaPlayerCommandOpts → Command
  set_lock : UInt32 → Enum → String → Command
  set_cover_position : UInt32 → Float32 → Command

-- The options of SetCoverPosition.
abbrev pub only_position : Float32 → CoverCommandOpts
only_position position = record {
  has_position = true;
  position = position;
  has_tilt = false;
  tilt = 0;
  stop = false;
}

-- The entity that a command is for.
unfoldable pub target : Command → UInt32 × EntityDomain
target (set_switch k state) = (k, EntityDomain.switch)
target (set_light k opts) = (k, EntityDomain.light)
target (set_climate k opts) = (k, EntityDomain.climate)
target (set_number k value) = (k, EntityDomain.number)
target (set_select k value) = (k, EntityDomain.select)
target (press_button k) = (k, EntityDomain.button)
target (set_cover k opts) = (k, EntityDomain.cover)
target (set_fan k opts) = (k, EntityDomain.fan)
target (set_siren k opts) = (k, EntityDomain.siren)
target (set_media_player k opts) = (k, EntityDomain.media_player)
target (set_lock k command code) = (k, EntityDomain.lock)
target (set_cover_position k position) = (k, EntityDomain.cover)

-- The message that it sends.
unfoldable pub request : Command → Message
request (set_switch k state) = Message.switch_command_request (switch_request k state)
request (set_light k opts) = Message.light_command_request (light_request k opts)
request (set_climate k opts) = Message.climate_command_request (climate_request k opts)
request (set_number k value) = Message.number_command_request (number_request k value)
request (set_select k value) = Message.select_command_request (select_request k value)
request (press_button k) = Message.button_command_request (button_request k)
request (set_cover k opts) = Message.cover_command_request (cover_request k opts)
request (set_fan k opts) = Message.fan_command_request (fan_request k opts)
request (set_siren k opts) = Message.siren_command_request (siren_request k opts)
request (set_media_player k opts) =
    Message.media_player_command_request (media_player_request k opts)
request (set_lock k command code) = Message.lock_command_request (lock_request k command code)
request (set_cover_position k position) =
    Message.cover_command_request (cover_request k (only_position position))
