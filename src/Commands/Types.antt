-- ===== src/Commands/Types.antt =====
-- commands.go: the message type ids of the commands.
use esphome_apiclient.Common.{ℕ, String, Option, none, some, [], ◌∷◌}
use esphome_apiclient.Common.Maps.{Map}
use esphome_apiclient.Pb.Message.{Message}

-- The switch of SendCommand: the id of a command request, and none for any other message.
unfoldable pub command_type : Message → Option ℕ
command_type (Message.cover_command_request m) = some 30
command_type (Message.fan_command_request m) = some 31
command_type (Message.light_command_request m) = some 32
command_type (Message.switch_command_request m) = some 33
command_type (Message.climate_command_request m) = some 48
command_type (Message.number_command_request m) = some 51
command_type (Message.select_command_request m) = some 54
command_type (Message.siren_command_request m) = some 57
command_type (Message.lock_command_request m) = some 60
command_type (Message.button_command_request m) = some 62
command_type (Message.media_player_command_request m) = some 65
command_type (Message.water_heater_command_request m) = some 134
command_type _ = none

-- commandTypeIDs, by the name of the type.
abbrev pub command_type_ids : Map String ℕ
command_type_ids =
    ("CoverCommandRequest", 30)
    ∷ ("FanCommandRequest", 31)
    ∷ ("LightCommandRequest", 32)
    ∷ ("SwitchCommandRequest", 33)
    ∷ ("ClimateCommandRequest", 48)
    ∷ ("NumberCommandRequest", 51)
    ∷ ("SelectCommandRequest", 54)
    ∷ ("SirenCommandRequest", 57)
    ∷ ("LockCommandRequest", 60)
    ∷ ("ButtonCommandRequest", 62)
    ∷ ("MediaPlayerCommandRequest", 65)
    ∷ ("WaterHeaterCommandRequest", 134)
    ∷ []
