-- ===== src/Commands/Sending.antt =====
-- commands.go: validateEntity, SendCommand and the methods that use them. The method behind a command
-- checks the entity, builds the request and sends it.
use esphome_apiclient.Common.{ℕ, Option, none, some, nat_eq, if◌then◌else◌}
use esphome_apiclient.Stream.{err, Reads, wrapping, fail}
use esphome_apiclient.Pb.Message.{Message}
use esphome_apiclient.Entities.Domain.{EntityDomain, domain_eq}
use esphome_apiclient.Entities.Registry.{EntityRegistry}
use esphome_apiclient.Entities.Handle.{by_key, len}
use esphome_apiclient.Client.Framer.{Framer}
use esphome_apiclient.Client.State.{Client}
use esphome_apiclient.Client.Exchange.{Protobuf, MessageError, send_message}
use esphome_apiclient.Commands.Types.{command_type}
use esphome_apiclient.Commands.Methods.{Command, target, request}

-- ErrEntityNotFound, ErrEntityTypeMismatch, the default of SendCommand, and the errors of SendMessage.
pub data CommandError : Type 0 where
  entity_not_found entity_type_mismatch unsupported_command : CommandError
  message_error : MessageError → CommandError

-- nil is `none`. An empty registry passes every key.
unfoldable pub validate_entity : ℕ → EntityDomain → EntityRegistry → Option CommandError
validate_entity k expected r = if nat_eq (len r) 0 then none else elim (by_key k r) [
  | none ↦ some entity_not_found
  | some ref ↦ if domain_eq ref.domain expected then none else some entity_type_mismatch
]

module _ (P : Protobuf) (F : Framer) {H : Type 0} where
  unfoldable pub send_command : Message → Reads (Client F.State H) CommandError (Unit {0})
  send_command cmd = elim (command_type cmd) [
    | none ↦ fail unsupported_command
    | some msg_type ↦ wrapping message_error (send_message P F cmd msg_type)
  ]

  unfoldable pub perform : Command → Reads (Client F.State H) CommandError (Unit {0})
  unfolding send_command
  perform cmd c = elim (validate_entity (target cmd).0 (target cmd).1 c.entities) [
    | some e ↦ (err e, c)
    | none ↦ send_command (request cmd) c
  ]
