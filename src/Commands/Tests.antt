-- ===== src/Commands/Tests.antt =====
-- commands.go: a switch command to a device that has a switch under one key and a sensor under another.
use esphome_apiclient.Common.{ℕ, suc, ◌≡◌, ◌≢◌, refl, none, some, true, false, [], nat_key, inr}
use esphome_apiclient.Common.Maps.{lookup}
use esphome_apiclient.Stream.{ok, err, wrapping}
use esphome_apiclient.Pb.Message.{Message, kind}
use esphome_apiclient.Pb.Registry.{message_registry}
use esphome_apiclient.Pb.Listing.{ListEntitiesSwitchResponse}
use esphome_apiclient.Entities.Domain.{EntityDomain}
use esphome_apiclient.Entities.Registry.{new_entity_registry}
use esphome_apiclient.Entities.Handle.{register, by_key, len, handle_list_entity_message}
use esphome_apiclient.Noise.{plaintext_device}
use esphome_apiclient.Client.Framer.{Framer, noise_error}
use esphome_apiclient.Client.State.{Client, new_client}
use esphome_apiclient.Client.Exchange.{Protobuf, send_message}
use esphome_apiclient.Commands.Methods.{Command, target, request}
use esphome_apiclient.Commands.Sending.{
  message_error, entity_not_found, entity_type_mismatch, perform,
}
use esphome_apiclient.Commands.Checked.{perform_allowed, perform_refused}

abbrev empty_messages : Protobuf
empty_messages = record { marshal = λ m. some []; unmarshal = λ k bs. none }

-- A framer that counts the frames that it writes.
abbrev counting : Framer
counting = record {
  State = ℕ;
  write_frame = λ t bs n. (ok tt, suc n);
  read_frame = λ n. (err (noise_error plaintext_device), n);
  close = λ n. (none, n);
}

abbrev listing : ListEntitiesSwitchResponse
listing = record {
  object_id = "relay";
  key = 7;
  name = "relay";
  icon = "";
  assumed_state = false;
  disabled_by_default = false;
  entity_category = 0;
  device_class = "";
  device_id = 0;
}

abbrev device : Client ℕ ℕ
device = record (new_client "host" 5) {
  framer = some 0;
  entities =
      (handle_list_entity_message (Message.list_entities_switch_response listing)
        new_entity_registry).0;
}

abbrev switch_on : ℕ → Command
switch_on k = Command.set_switch k true

perform_allowed_example :
    (t : ℕ) × (lookup t message_registry ≡ some (kind (request (switch_on 7))))
    × (perform empty_messages counting (switch_on 7) device
        ≡ wrapping message_error
            (send_message empty_messages counting (request (switch_on 7)) t)
            device)
unfolding handle_list_entity_message register new_entity_registry by_key target
perform_allowed_example =
    perform_allowed empty_messages counting (switch_on 7) device (inr (0, refl))

perform_refused_example :
    (by_key 8 device.entities ≡ none
      → perform empty_messages counting (switch_on 8) device ≡ (err entity_not_found, device))
    × ((d : EntityDomain) (a : ℕ)
        → by_key 8 device.entities ≡ some (record { domain = d; address = a })
        → d ≢ EntityDomain.switch
        → perform empty_messages counting (switch_on 8) device ≡ (err entity_type_mismatch, device))
unfolding handle_list_entity_message register new_entity_registry len target
perform_refused_example = perform_refused empty_messages counting (switch_on 8) device (λ e. cc)
