-- ===== src/Client/State.antt =====
-- client.go: the fields of Client and the options that set them. `S` is the state of the framer and `H`
-- the type of handlers; durations are whole numbers of a fixed unit, 0 where Go tests for `> 0`.
use esphome_apiclient.Common.{ℕ, ◌*◌, String, Bool, false, Option, none, some, List, [], ◌∷◌}
use esphome_apiclient.Entities.Registry.{EntityRegistry, new_entity_registry}
use esphome_apiclient.Services.{ServiceRegistry, new_service_registry}
use esphome_apiclient.Router.{Router, new_router}

pub record Client (S H : Type 0) : Type 0 where
  pub framer : Option S
  pub router : Router H
  pub entities : EntityRegistry
  pub services : ServiceRegistry
  pub done : Bool
  pub client_info : String
  pub encryption_key : String
  pub expected_name : String
  pub api_version_major : ℕ
  pub api_version_minor : ℕ
  pub server_info : String
  pub name : String
  pub keepalive_interval : ℕ
  pub keepalive_timeout : ℕ
  pub reconnect_interval : ℕ
  pub on_connect : Option H
  pub on_disconnect : Option H
  pub address : String
  pub timeout : ℕ
  pub cancelled : Bool
  pub connected : Bool
  pub closed : Bool
  pub state_handler : Option H

-- A duration in nanoseconds.
abbrev pub second : ℕ
second = 1_000_000_000

module _ {S H : Type 0} where
  -- The literal of DialWithContext.
  unfoldable pub new_client : String → ℕ → Client S H
  new_client address timeout = record {
    framer = none;
    router = new_router;
    entities = new_entity_registry;
    services = new_service_registry;
    done = false;
    client_info = "esphome-apiclient-go";
    encryption_key = "";
    expected_name = "";
    api_version_major = 1;
    api_version_minor = 10;
    server_info = "";
    name = "";
    keepalive_interval = 20 * second;
    keepalive_timeout = 10 * second;
    reconnect_interval = 0;
    on_connect = none;
    on_disconnect = none;
    address = address;
    timeout = timeout;
    cancelled = false;
    connected = false;
    closed = false;
    state_handler = none;
  }

  unfoldable pub with_client_info : String → Client S H → Client S H
  with_client_info info c = record c { client_info = info }

  unfoldable pub with_encryption_key : String → Client S H → Client S H
  with_encryption_key key c = record c { encryption_key = key }

  unfoldable pub with_expected_name : String → Client S H → Client S H
  with_expected_name name c = record c { expected_name = name }

  unfoldable pub with_keepalive : ℕ → Client S H → Client S H
  with_keepalive interval c = record c { keepalive_interval = interval }

  unfoldable pub with_keepalive_timeout : ℕ → Client S H → Client S H
  with_keepalive_timeout timeout c = record c { keepalive_timeout = timeout }

  unfoldable pub with_reconnect : ℕ → Client S H → Client S H
  with_reconnect interval c = record c { reconnect_interval = interval }

  unfoldable pub with_on_connect : H → Client S H → Client S H
  with_on_connect fn c = record c { on_connect = some fn }

  unfoldable pub with_on_disconnect : H → Client S H → Client S H
  with_on_disconnect fn c = record c { on_disconnect = some fn }

  -- `for _, opt := range opts { opt(c) }`
  unfoldable pub apply_options : List (Client S H → Client S H) → Client S H → Client S H
  apply_options [] c = c
  apply_options (opt ∷ opts) c = apply_options opts (opt c)
