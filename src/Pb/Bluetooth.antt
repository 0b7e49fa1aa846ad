-- ===== src/Pb/Bluetooth.antt =====
-- The messages of the Bluetooth proxy (pb/api.pb.go).
use esphome_apiclient.Common.{ℕ, Bool, List}
use esphome_apiclient.Pb.Types.{Enum, Int32, UInt32, UInt64}

pub record BluetoothGattDescriptor : Type 0 where
  pub uuid : List UInt64
  pub handle : UInt32
  pub short_uuid : UInt32

pub record BluetoothGattCharacteristic : Type 0 where
  pub uuid : List UInt64
  pub handle : UInt32
  pub properties : UInt32
  pub descriptors : List BluetoothGattDescriptor
  pub short_uuid : UInt32

pub record BluetoothGattService : Type 0 where
  pub uuid : List UInt64
  pub handle : UInt32
  pub characteristics : List BluetoothGattCharacteristic
  pub short_uuid : UInt32

pub record BluetoothDeviceRequest : Type 0 where
  pub address : UInt64
  pub request_type : Enum
  pub has_address_type : Bool
  pub address_type : UInt32

pub record BluetoothDeviceConnectionResponse : Type 0 where
  pub address : UInt64
  pub connected : Bool
  pub mtu : UInt32
  pub error : Int32

pub record BluetoothGattGetServicesRequest : Type 0 where
  pub address : UInt64

pub record BluetoothGattGetServicesResponse : Type 0 where
  pub address : UInt64
  pub services : List BluetoothGattService

pub record BluetoothGattGetServicesDoneResponse : Type 0 where
  pub address : UInt64

pub record BluetoothGattReadRequest : Type 0 where
  pub address : UInt64
  pub handle : UInt32

pub record BluetoothGattReadResponse : Type 0 where
  pub address : UInt64
  pub handle : UInt32
  pub content : List ℕ

pub record BluetoothGattWriteRequest : Type 0 where
  pub address : UInt64
  pub handle : UInt32
  pub response : Bool
  pub content : List ℕ

pub record BluetoothGattWriteResponse : Type 0 where
  pub address : UInt64
  pub handle : UInt32

pub record BluetoothGattNotifyRequest : Type 0 where
  pub address : UInt64
  pub handle : UInt32
  pub enable : Bool

pub record BluetoothGattNotifyResponse : Type 0 where
  pub address : UInt64
  pub handle : UInt32

pub record BluetoothGattNotifyDataResponse : Type 0 where
  pub address : UInt64
  pub handle : UInt32
  pub content : List ℕ

pub record BluetoothGattErrorResponse : Type 0 where
  pub address : UInt64
  pub handle : UInt32
  pub error : Int32

pub record BluetoothConnectionsFreeResponse : Type 0 where
  pub free : UInt32
  pub limit : UInt32
  pub allocated : List UInt64

pub record BluetoothScannerSetModeRequest : Type 0 where
  pub mode : Enum
