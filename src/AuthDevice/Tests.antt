-- ===== src/AuthDevice/Tests.antt =====
-- Hash material and keys at concrete inputs.
use world_infra.Prelude.{◌≡◌, refl, some, arith}
use world_infra.Text.{codes}
use world_infra.AuthDevice.{DeviceHashMaterial, ip_user_agent}
use world_infra.AuthDevice.Material.{hash_material-injective}

abbrev phone : DeviceHashMaterial
phone = ip_user_agent (some (codes "10.0.0.1")) (some (codes "curl"))

hash_material-injective_example : phone ≡ phone
hash_material-injective_example =
    hash_material-injective phone phone (codes "auth-device-core:v1") (omega arith, omega arith)
      (omega arith, omega arith) refl
