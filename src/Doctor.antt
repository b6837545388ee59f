-- ===== src/Doctor.antt =====
-- src/statebraid/doctor.py. The client of a server and the environment of the MLX probe are arguments;
-- `main` returns what is shown and the exit code, and the rendering is left out.
pub mod Exit
use statebraid.Prelude.{ℕ, Bool, true, false, List, [], ◌∷◌, String, if◌then◌else◌}
use statebraid.Prelude.Exec.{Exec, pure, continue, ◌>>=◌}
use statebraid.Prelude.Json.{
  Json, text, array, object, Items, item, end_of_items, Fields, field, end_of_fields,
}
use statebraid.Backend.Descriptor.{BackendDescriptor, backend_contract_version}
use statebraid.Backend.Descriptor.Dict.{text_items, to_dict}
use statebraid.Adapters.LlamaCpp.Lookup.{JsonTransport}
use statebraid.Adapters.LlamaCpp.Descriptor.{llama_cpp_backend_descriptor}
use statebraid.Adapters.LlamaCppManaged.{llama_cpp_managed_backend_descriptor}
use statebraid.Adapters.Mlx.{mlx_backend_descriptor}
use statebraid.Compat.LlamaCpp.{LlamaCppCompatibilityReport, probe_llama_cpp_server}
use statebraid.Compat.Mlx.{MlxEnvironment, MlxCompatibilityReport, probe_mlx_backend}
use statebraid.Support.{statebraid_owns, backend_owns, support_scope}

-- The subcommands.
pub data Subcommand : Type 0 where
  contract scope mlx : Subcommand
  llama_cpp : String → Subcommand

-- What is shown.
pub data Shown : Type 0 where
  dictionary : Fields → Shown
  llama_cpp_report : LlamaCppCompatibilityReport → Shown
  mlx_report : MlxCompatibilityReport → Shown

abbrev pub known_adapters : List BackendDescriptor
known_adapters =
    mlx_backend_descriptor ∷ llama_cpp_backend_descriptor ∷ llama_cpp_managed_backend_descriptor
    ∷ []

unfoldable pub dict_items : List BackendDescriptor → Items
unfolding to_dict
dict_items [] = end_of_items
dict_items (d ∷ ds) = item (object (to_dict d)) (dict_items ds)

unfoldable pub contract_report : Fields
unfolding text_items dict_items
contract_report = field "backend_contract_version" (text backend_contract_version) (
    field "statebraid_owns" (array (text_items statebraid_owns)) (
      field "backend_owns" (array (text_items backend_owns)) (
        field "known_adapters" (array (dict_items known_adapters)) (
          field "qualification_note"
            (text "capability declaration does not widen the separately versioned support scope")
            end_of_fields))))

-- `0 if report.compatible else 2`.
unfoldable pub exit_code : Bool → ℕ
exit_code compatible = if compatible then 0 else 2

module _ {S : Type 0} (connect : String → JsonTransport S) (environment : MlxEnvironment S) where
  unfoldable pub main : Subcommand → Exec S (Shown × ℕ)
  unfolding continue contract_report support_scope exit_code
  main contract = pure (dictionary contract_report, 0)
  main (llama_cpp url) = do
    report ← probe_llama_cpp_server (connect url)
    pure (llama_cpp_report report, exit_code report.compatible)
  main scope = pure (dictionary support_scope, 0)
  main mlx = do
    report ← probe_mlx_backend environment
    pure (mlx_report report, exit_code report.compatible)
