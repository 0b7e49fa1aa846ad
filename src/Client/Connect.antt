-- ===== src/Client/Connect.antt =====
-- client.go: connect, DialWithContext and reconnectLoop. What transport.Dial and transport.DialNoise give is a
-- parameter, as is the base64 decoding of a key.
use esphome_apiclient.Common.{
  ℕ, ◌≡◌, Bool, true, false, String, Option, none, some, List, [], ◌∷◌, ltb, if◌then◌else◌, ◌==◌,
  string_key,
}
use esphome_apiclient.Stream.{Result, ok, err, IoError, Reads}
use esphome_apiclient.Entities.Registry.{clear}
use esphome_apiclient.Services.{clear_services}
use esphome_apiclient.Router.{Router}
use esphome_apiclient.Client.Framer.{Framer}
use esphome_apiclient.Client.State.{Client, new_client, apply_options}
use esphome_apiclient.Client.Exchange.{Protobuf}
use esphome_apiclient.Client.Handshake.{HandshakeError, handshake}
use esphome_apiclient.Client.Backoff.{next_backoff}

-- One attempt to reach the device: an address and a timeout, and for DialNoise a key and the expected name.
pub record Network (S : Type 0) : Type 0 where
  pub decode_key : String → Option (List ℕ)
  pub dial : String → ℕ → Result IoError S
  pub dial_noise : String → ℕ → List ℕ → String → Result IoError S

pub data ConnectError : Type 0 where
  invalid_key : ConnectError
  undialled : IoError → ConnectError
  unwelcome : HandshakeError → ConnectError

-- What DialWithContext starts for a new client: whether there is a keepaliveLoop, and the user's function.
pub record Started (H : Type 0) : Type 0 where
  pub keepalive : Bool
  pub callback : Option H

abbrev dialled : {S : Type 0} → Result IoError S → Result ConnectError S
dialled (ok s) = ok s
dialled (err e) = err (undialled e)

unfoldable pub open_framer : {S H : Type 0} → Network S → Client S H → Result ConnectError S
open_framer net c =
    if c.encryption_key == ""
    then dialled (net.dial c.address c.timeout)
    else elim (net.decode_key c.encryption_key) [
      | none ↦ err invalid_key
      | some psk ↦ dialled (net.dial_noise c.address c.timeout psk c.expected_name)
    ]

module _ {S H : Type 0} where
  -- `c.done = make(chan struct{}); c.entities.Clear(); c.services.Clear()`
  abbrev pub reset : Client S H → Client S H
  reset c = record c {
    done = false;
    entities = clear c.entities;
    services = clear_services c.services;
  }

  abbrev pub restored : Client S H → Client S H
  restored c = record c { connected = true; closed = false }

module _ (P : Protobuf) (F : Framer) {H : Type 0} where
  abbrev pub shut : Client F.State H → Client F.State H
  shut c = record c { framer = elim c.framer [ none ↦ none | some s ↦ some (F.close s).1 ] }

  abbrev pub greeted :
      Result HandshakeError (Unit {0})
      → Client F.State H
      → Result ConnectError (Unit {0}) × Client F.State H
  greeted (ok u) c = (ok tt, c)
  greeted (err e) c = (err (unwelcome e), shut c)

  abbrev framed : Result ConnectError F.State → Reads (Client F.State H) ConnectError (Unit {0})
  framed (err e) c = (err e, c)
  framed (ok s) c = let (r, c1) = handshake P F (record c { framer = some s }) in greeted r c1

  unfoldable pub connect : Network F.State → Reads (Client F.State H) ConnectError (Unit {0})
  unfolding open_framer
  connect net c = framed (open_framer net c) c

  abbrev dial_result :
      Result ConnectError (Unit {0})
      → Client F.State H
      → Result ConnectError (Client F.State H × Started H)
  dial_result (err e) c = err e
  dial_result (ok u) c = ok (
    record c { connected = true },
    record { keepalive = ltb 0 c.keepalive_interval; callback = c.on_connect },
  )

  unfoldable pub dial_with_context :
      Network F.State
      → String
      → ℕ
      → List (Client F.State H → Client F.State H)
      → Result ConnectError (Client F.State H × Started H)
  unfolding connect
  dial_with_context net address timeout opts =
      let (r, c) = connect net (apply_options opts (new_client address timeout)) in dial_result r c

  -- The loop with its waits, up to the new connection or the end of the context. Meanwhile the user may close the
  -- client or register handlers; the network may be another at each attempt.
  pub data Reconnects : ℕ → Client F.State H → List ℕ → Bool → Client F.State H → Type 0 where
    abandoned : {b : ℕ} {c : Client F.State H} → c.cancelled ≡ true → Reconnects b c [] false c
    cancelling :
        {b : ℕ} {ws : List ℕ} {r : Bool} {c c' : Client F.State H} {framer : Option F.State}
        → Reconnects b
            (record c { framer = framer; closed = true; connected = false; cancelled = true })
            ws
            r
            c'
        → Reconnects b c ws r c'
    registering :
        {b : ℕ} {ws : List ℕ} {r : Bool} {c c' : Client F.State H} {router : Router H}
        → Reconnects b (record c { router = router }) ws r c'
        → Reconnects b c ws r c'
    refused :
        {b : ℕ} {ws : List ℕ} {r : Bool} {c c1 c' : Client F.State H} {e : ConnectError}
        (net : Network F.State)
        → connect net (reset c) ≡ (err e, c1)
        → Reconnects (next_backoff b) c1 ws r c'
        → Reconnects b c (b ∷ ws) r c'
    reconnected :
        {b : ℕ} {c c1 : Client F.State H} (net : Network F.State)
        → connect net (reset c) ≡ (ok tt, c1)
        → Reconnects b c (b ∷ []) true (restored c1)
