-- ===== src/Pb/Types.antt =====
-- The scalar types of the generated messages (pb/api.pb.go). The client only copies their values:
-- a float32 is kept as its bit pattern, an int32 as its two's complement, an enum as its number.
use esphome_apiclient.Common.{ℕ}

abbrev pub UInt32 : Type 0
UInt32 = ℕ

abbrev pub UInt64 : Type 0
UInt64 = ℕ

abbrev pub Int32 : Type 0
Int32 = ℕ

abbrev pub Float32 : Type 0
Float32 = ℕ

abbrev pub Enum : Type 0
Enum = ℕ
