-- ===== src/Entities/Domain.antt =====
-- entities.go: the domains of entities, and the Entity interface by dynamic type.
use esphome_apiclient.Common.{String, Bool, true, false}
use esphome_apiclient.Pb.Types.{UInt32}
use esphome_apiclient.Entities.Readings.{
  SensorEntity, BinarySensorEntity, TextSensorEntity, CameraEntity,
}
use esphome_apiclient.Entities.Controls.{CoverEntity, FanEntity, LightEntity}
use esphome_apiclient.Entities.Inputs.{
  SwitchEntity, NumberEntity, SelectEntity, ButtonEntity, LockEntity,
}
use esphome_apiclient.Entities.Devices.{SirenEntity, MediaPlayerEntity, WaterHeaterEntity}
use esphome_apiclient.Entities.Climate.{ClimateEntity}

pub data EntityDomain : Type 0 where
  sensor : EntityDomain
  binary_sensor : EntityDomain
  cover : EntityDomain
  fan : EntityDomain
  light : EntityDomain
  switch : EntityDomain
  text_sensor : EntityDomain
  camera : EntityDomain
  climate : EntityDomain
  number : EntityDomain
  select : EntityDomain
  siren : EntityDomain
  lock : EntityDomain
  button : EntityDomain
  media_player : EntityDomain
  water_heater : EntityDomain

abbrev pub domain_eq : EntityDomain → EntityDomain → Bool
domain_eq EntityDomain.sensor EntityDomain.sensor = true
domain_eq EntityDomain.binary_sensor EntityDomain.binary_sensor = true
domain_eq EntityDomain.cover EntityDomain.cover = true
domain_eq EntityDomain.fan EntityDomain.fan = true
domain_eq EntityDomain.light EntityDomain.light = true
domain_eq EntityDomain.switch EntityDomain.switch = true
domain_eq EntityDomain.text_sensor EntityDomain.text_sensor = true
domain_eq EntityDomain.camera EntityDomain.camera = true
domain_eq EntityDomain.climate EntityDomain.climate = true
domain_eq EntityDomain.number EntityDomain.number = true
domain_eq EntityDomain.select EntityDomain.select = true
domain_eq EntityDomain.siren EntityDomain.siren = true
domain_eq EntityDomain.lock EntityDomain.lock = true
domain_eq EntityDomain.button EntityDomain.button = true
domain_eq EntityDomain.media_player EntityDomain.media_player = true
domain_eq EntityDomain.water_heater EntityDomain.water_heater = true
domain_eq _ _ = false

-- EntityDomain.String; its default is for numbers that name no domain.
unfoldable pub domain_name : EntityDomain → String
domain_name EntityDomain.sensor = "sensor"
domain_name EntityDomain.binary_sensor = "binary_sensor"
domain_name EntityDomain.cover = "cover"
domain_name EntityDomain.fan = "fan"
domain_name EntityDomain.light = "light"
domain_name EntityDomain.switch = "switch"
domain_name EntityDomain.text_sensor = "text_sensor"
domain_name EntityDomain.camera = "camera"
domain_name EntityDomain.climate = "climate"
domain_name EntityDomain.number = "number"
domain_name EntityDomain.select = "select"
domain_name EntityDomain.siren = "siren"
domain_name EntityDomain.lock = "lock"
domain_name EntityDomain.button = "button"
domain_name EntityDomain.media_player = "media_player"
domain_name EntityDomain.water_heater = "water_heater"

abbrev pub EntityOf : EntityDomain → Type 0
EntityOf EntityDomain.sensor = SensorEntity
EntityOf EntityDomain.binary_sensor = BinarySensorEntity
EntityOf EntityDomain.cover = CoverEntity
EntityOf EntityDomain.fan = FanEntity
EntityOf EntityDomain.light = LightEntity
EntityOf EntityDomain.switch = SwitchEntity
EntityOf EntityDomain.text_sensor = TextSensorEntity
EntityOf EntityDomain.camera = CameraEntity
EntityOf EntityDomain.climate = ClimateEntity
EntityOf EntityDomain.number = NumberEntity
EntityOf EntityDomain.select = SelectEntity
EntityOf EntityDomain.siren = SirenEntity
EntityOf EntityDomain.lock = LockEntity
EntityOf EntityDomain.button = ButtonEntity
EntityOf EntityDomain.media_player = MediaPlayerEntity
EntityOf EntityDomain.water_heater = WaterHeaterEntity

abbrev pub key_of : (d : EntityDomain) → EntityOf d → UInt32
key_of EntityDomain.sensor e = e.key
key_of EntityDomain.binary_sensor e = e.key
key_of EntityDomain.cover e = e.key
key_of EntityDomain.fan e = e.key
key_of EntityDomain.light e = e.key
key_of EntityDomain.switch e = e.key
key_of EntityDomain.text_sensor e = e.key
key_of EntityDomain.camera e = e.key
key_of EntityDomain.climate e = e.key
key_of EntityDomain.number e = e.key
key_of EntityDomain.select e = e.key
key_of EntityDomain.siren e = e.key
key_of EntityDomain.lock e = e.key
key_of EntityDomain.button e = e.key
key_of EntityDomain.media_player e = e.key
key_of EntityDomain.water_heater e = e.key

abbrev pub name_of : (d : EntityDomain) → EntityOf d → String
name_of EntityDomain.sensor e = e.name
name_of EntityDomain.binary_sensor e = e.name
name_of EntityDomain.cover e = e.name
name_of EntityDomain.fan e = e.name
name_of EntityDomain.light e = e.name
name_of EntityDomain.switch e = e.name
name_of EntityDomain.text_sensor e = e.name
name_of EntityDomain.camera e = e.name
name_of EntityDomain.climate e = e.name
name_of EntityDomain.number e = e.name
name_of EntityDomain.select e = e.name
name_of EntityDomain.siren e = e.name
name_of EntityDomain.lock e = e.name
name_of EntityDomain.button e = e.name
name_of EntityDomain.media_player e = e.name
name_of EntityDomain.water_heater e = e.name

abbrev pub object_id_of : (d : EntityDomain) → EntityOf d → String
object_id_of EntityDomain.sensor e = e.object_id
object_id_of EntityDomain.binary_sensor e = e.object_id
object_id_of EntityDomain.cover e = e.object_id
object_id_of EntityDomain.fan e = e.object_id
object_id_of EntityDomain.light e = e.object_id
object_id_of EntityDomain.switch e = e.object_id
object_id_of EntityDomain.text_sensor e = e.object_id
object_id_of EntityDomain.camera e = e.object_id
object_id_of EntityDomain.climate e = e.object_id
object_id_of EntityDomain.number e = e.object_id
object_id_of EntityDomain.select e = e.object_id
object_id_of EntityDomain.siren e = e.object_id
object_id_of EntityDomain.lock e = e.object_id
object_id_of EntityDomain.button e = e.object_id
object_id_of EntityDomain.media_player e = e.object_id
object_id_of EntityDomain.water_heater e = e.object_id
