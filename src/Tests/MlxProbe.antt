-- ===== src/Tests/MlxProbe.antt =====
-- The theorem on the probe of MLX-LM, at an environment of the audited reference.
use statebraid.Prelude.{ℕ, ◌+◌, ◌≡◌, refl, true, [], ◌∷◌, some}
use statebraid.Prelude.Result.{ok}
use statebraid.Prelude.Json.{boolean, text}
use statebraid.Compat.Mlx.{
  imported, CacheModule, ServerModule, MlxEnvironment, MlxCompatibilityReport, probe_mlx_backend,
}
use statebraid.Compat.Mlx.Exact.{IsExact, probe_mlx-IsExact}

abbrev cache_module : CacheModule
cache_module = record { storage_api = text "0.1"; lru_prompt_cache = some true }

abbrev server_module : ServerModule
server_module = record {
  server_api = text "0.1";
  argument_fields = "model" ∷ "cache_namespace" ∷ [];
  base_revision = text "7fb4be44d560e5b74595210f83cb6003a57e52a7";
  runtime_qualified = boolean true;
  status = text "reference_qualified";
}

-- The store counts the imports.
abbrev pub environment : MlxEnvironment ℕ
environment = record {
  import_cache = λ n. (imported cache_module, n + 1);
  import_server = λ n. (imported server_module, n + 1);
  version_reader = λ n. (ok (some "0.31"), n);
}

probe_mlx-IsExact_example :
    (report : MlxCompatibilityReport) × ((probe_mlx_backend environment 0).0 ≡ ok report)
    × IsExact report (imported cache_module) (imported server_module)
probe_mlx-IsExact_example = probe_mlx-IsExact environment 0 (some "0.31") refl
