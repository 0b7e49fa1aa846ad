-- ===== src/Entities/Tables.antt =====
-- The maps of the domains (entities.go): writing one leaves the others alone.
use esphome_apiclient.Common.{◌≡◌, refl}
use esphome_apiclient.Entities.Domain.{EntityDomain, EntityOf}
use esphome_apiclient.Entities.Table.{Table}
use esphome_apiclient.Entities.Registry.{Tables, table, set_table}

pub table-set_table :
    (d : EntityDomain) (t : Table (EntityOf d)) (ts : Tables) → table d (set_table d t ts) ≡ t
table-set_table EntityDomain.sensor t ts = refl
table-set_table _ t ts = refl

-- What holds of the map that is written, and of every other map before, holds of all of them after.
pub set_table-all {ℓ} :
    (P : (d : EntityDomain) → Table (EntityOf d) → Type ℓ) (d : EntityDomain)
    (t : Table (EntityOf d)) (ts : Tables)
    → P d t
    → ((d' : EntityDomain) → P d' (table d' ts))
    → (d' : EntityDomain) → P d' (table d' (set_table d t ts))
set_table-all P EntityDomain.sensor t ts h g EntityDomain.sensor = h
set_table-all P EntityDomain.binary_sensor t ts h g EntityDomain.binary_sensor = h
set_table-all P EntityDomain.cover t ts h g EntityDomain.cover = h
set_table-all P EntityDomain.fan t ts h g EntityDomain.fan = h
set_table-all P EntityDomain.light t ts h g EntityDomain.light = h
set_table-all P EntityDomain.switch t ts h g EntityDomain.switch = h
set_table-all P EntityDomain.text_sensor t ts h g EntityDomain.text_sensor = h
set_table-all P EntityDomain.camera t ts h g EntityDomain.camera = h
set_table-all P EntityDomain.climate t ts h g EntityDomain.climate = h
set_table-all P EntityDomain.number t ts h g EntityDomain.number = h
set_table-all P EntityDomain.select t ts h g EntityDomain.select = h
set_table-all P EntityDomain.siren t ts h g EntityDomain.siren = h
set_table-all P EntityDomain.lock t ts h g EntityDomain.lock = h
set_table-all P EntityDomain.button t ts h g EntityDomain.button = h
set_table-all P EntityDomain.media_player t ts h g EntityDomain.media_player = h
set_table-all P EntityDomain.water_heater t ts h g EntityDomain.water_heater = h
set_table-all P _ t ts h g d' = g d'
