-- ===== src/Integrations/Mlx.antt =====
-- src/statebraid/integrations/mlx/__init__.py.
use statebraid.Prelude.{String, Bool}
use statebraid.Prelude.Exec.{Exec}
use statebraid.Integrations.{Environment, Bytes, write_patch, verify_patch}

abbrev pub reference_patch_name : String
reference_patch_name = "mlx-lm-7fb4be44-statebraid-api-0.1.patch"

abbrev pub reference_patch_sha256 : String
reference_patch_sha256 = "7ae2816eabf76e1deb650257f32ca2209780c7cf4aef2ffa31e6509561584d8c"

module _ {S : Type 0} (e : Environment S) where
  unfoldable pub reference_patch_bytes : Exec S Bytes
  reference_patch_bytes = e.read_resource reference_patch_name

  unfoldable pub verify_reference_patch : Exec S Bool
  unfolding verify_patch
  verify_reference_patch = verify_patch e reference_patch_name reference_patch_sha256

  unfoldable pub write_reference_patch : String → Exec S String
  unfolding write_patch
  write_reference_patch path = write_patch e reference_patch_name reference_patch_sha256 path
