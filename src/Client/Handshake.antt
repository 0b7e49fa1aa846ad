-- ===== src/Client/Handshake.antt =====
-- client.go: the exchange of HelloRequest and HelloResponse that opens a connection.
use esphome_apiclient.Common.{ℕ, Option, none, some, not, nat_eq, if◌then◌else◌}
use esphome_apiclient.Stream.{ok, err, Reads, ◌>>=◌, ◌>>◌, fail_if, wrapping}
use esphome_apiclient.Pb.Message.{Message}
use esphome_apiclient.Pb.Session.{HelloResponse}
use esphome_apiclient.Client.Framer.{Framer}
use esphome_apiclient.Client.State.{Client}
use esphome_apiclient.Client.Exchange.{Protobuf, MessageError, send_message, recv_message}

pub data HandshakeError : Type 0 where
  hello_unsent hello_unreceived : MessageError → HandshakeError
  wrong_type : ℕ → HandshakeError
  wrong_message : HandshakeError
  unsupported_version : ℕ → ℕ → HandshakeError

abbrev pub hello : {S H : Type 0} → Client S H → Message
hello c = Message.hello_request (record {
  client_info = c.client_info;
  api_version_major = c.api_version_major;
  api_version_minor = c.api_version_minor;
})

-- The type assertion `msg.(*pb.HelloResponse)`.
abbrev pub hello_response? : Option Message → Option HelloResponse
hello_response? (some (Message.hello_response m)) = some m
hello_response? _ = none

abbrev pub accepted : {S H : Type 0} → HelloResponse → Client S H → Client S H
accepted m c = record c {
  api_version_major = m.api_version_major;
  api_version_minor = m.api_version_minor;
  server_info = m.server_info;
  name = m.name;
}

unfoldable pub accept_hello :
    {S H : Type 0} → Option HelloResponse → Reads (Client S H) HandshakeError (Unit {0})
accept_hello none c = (err wrong_message, c)
accept_hello (some m) c =
    if not (nat_eq m.api_version_major c.api_version_major)
    then (err (unsupported_version m.api_version_major m.api_version_minor), c)
    else (ok tt, accepted m c)

unfoldable pub check_hello :
    {S H : Type 0} → Option Message × ℕ → Reads (Client S H) HandshakeError (Unit {0})
unfolding accept_hello
check_hello (msg, msg_type) = do
  fail_if (not (nat_eq msg_type 2)) (wrong_type msg_type)
  accept_hello (hello_response? msg)

module _ (P : Protobuf) (F : Framer) {H : Type 0} where
  unfoldable pub handshake : Reads (Client F.State H) HandshakeError (Unit {0})
  unfolding check_hello
  handshake c =
      (do
        wrapping hello_unsent (send_message P F (hello c) 1)
        reply ← wrapping hello_unreceived (recv_message P F)
        check_hello reply)
        c
