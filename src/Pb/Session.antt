-- ===== src/Pb/Session.antt =====
-- The messages of the handshake, the logs and the services (pb/api.pb.go).
use esphome_apiclient.Common.{ℕ, String, Bool, List}
use esphome_apiclient.Pb.Types.{Enum, Float32, Int32, UInt32}

pub record HelloRequest : Type 0 where
  pub client_info : String
  pub api_version_major : UInt32
  pub api_version_minor : UInt32

pub record HelloResponse : Type 0 where
  pub api_version_major : UInt32
  pub api_version_minor : UInt32
  pub server_info : String
  pub name : String

pub record SubscribeLogsRequest : Type 0 where
  pub level : Enum
  pub dump_config : Bool

pub record SubscribeLogsResponse : Type 0 where
  pub level : Enum
  pub message : List ℕ

pub record ExecuteServiceArgument : Type 0 where
  pub bool_field : Bool
  pub legacy_int : Int32
  pub float_field : Float32
  pub string_field : String
  pub int_field : Int32
  pub bool_array : List Bool
  pub int_array : List Int32
  pub float_array : List Float32
  pub string_array : List String

pub record ExecuteServiceRequest : Type 0 where
  pub key : UInt32
  pub args : List ExecuteServiceArgument
  pub call_id : UInt32
  pub return_response : Bool
