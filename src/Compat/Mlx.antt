-- ===== src/Compat/Mlx.antt =====
-- src/statebraid/compat/mlx.py: the probe of the installed MLX-LM, and its report. The importer and the
-- reader of the version are arguments. The value of a module's attribute is a `Json`, `null` where the
-- attribute is missing.
pub mod Exact
use statebraid.Prelude.{
  Bool, true, false, not, ◌&&◌, List, [], ◌∷◌, ◌++◌, Option, none, some, String, ◌==◌, contains,
  length, if◌then◌else◌, string_hashable, nat_hashable,
}
use statebraid.Prelude.Result.{Result, ok, Error}
use statebraid.Prelude.Exec.{Exec, continue}
use statebraid.Prelude.Json.{Json, null}
use statebraid.Backend.Observation.{is_none}
use statebraid.Backend.Descriptor.{
  BackendCapability, IntegrationLevel, backend_contract_version, integration_level,
}
use statebraid.Adapters.LlamaCppManaged.Answers.{is_true}
use statebraid.Adapters.LlamaCppManaged.Mutations.{equals_text}
use statebraid.Adapters.Mlx.{mlx_backend_descriptor}

abbrev pub required_mlx_storage_api_version : String
required_mlx_storage_api_version = "0.1"

abbrev pub required_mlx_server_api_version : String
required_mlx_server_api_version = "0.1"

abbrev pub reference_mlx_base_sha : String
reference_mlx_base_sha = "7fb4be44d560e5b74595210f83cb6003a57e52a7"

-- An import: the module, an `ImportError`, or another exception.
pub data Import (M : Type 0) : Type 0 where
  imported : M → Import M
  not_found : Import M
  failed : Error → Import M

-- What the probe reads of mlx_lm.models.cache. `lru_prompt_cache` says of the class, where it is there,
-- whether its `transactional_storage` is callable.
pub record CacheModule : Type 0 where
  pub storage_api : Json
  pub lru_prompt_cache : Option Bool

-- What the probe reads of mlx_lm.server; `argument_fields` are those of `GenerationArguments`.
pub record ServerModule : Type 0 where
  pub server_api : Json
  pub argument_fields : List String
  pub base_revision : Json
  pub runtime_qualified : Json
  pub status : Json

-- The arguments of the probe.
pub record MlxEnvironment (S : Type 0) : Type 0 where
  pub import_cache : S → Import CacheModule × S
  pub import_server : S → Import ServerModule × S
  pub version_reader : Exec S (Option String)

-- The texts of `issues`.
pub data MlxIssue : Type 0 where
  not_importable server_not_found : MlxIssue
  cache_import_failed server_import_failed : Error → MlxIssue
  storage_api_differs storage_unavailable : MlxIssue
  server_api_differs namespace_unavailable base_differs : MlxIssue
  not_marked_qualified status_differs : MlxIssue

pub record MlxCompatibilityReport : Type 0 where
  pub installed : Bool
  pub compatible : Bool
  pub mlx_lm_version : Option String
  pub storage_api_version : Json
  pub server_api_version : Json
  pub transactional_storage : Bool
  pub request_namespace : Bool
  pub reference_base_revision : Json
  pub reference_runtime_qualified : Json
  pub reference_status : Json
  pub reference_identity_match : Bool
  pub issues : List MlxIssue

-- The defaults of the other fields.
abbrev pub mlx_contract_version : String
mlx_contract_version = backend_contract_version

abbrev pub mlx_declared_capabilities : List BackendCapability
mlx_declared_capabilities = mlx_backend_descriptor.capabilities

abbrev pub mlx_declared_level : IntegrationLevel
mlx_declared_level = integration_level mlx_backend_descriptor

-- `if not holds: issues.append(issue)`.
abbrev pub unless : Bool → MlxIssue → List MlxIssue
unless holds issue = if holds then [] else issue ∷ []

-- The report where the cache module is not imported.
unfoldable pub no_cache_report : Option String → Bool → MlxIssue → MlxCompatibilityReport
no_cache_report version missing issue = record {
  installed = not (is_none version && missing);
  compatible = false;
  mlx_lm_version = version;
  storage_api_version = null;
  server_api_version = null;
  transactional_storage = false;
  request_namespace = false;
  reference_base_revision = null;
  reference_runtime_qualified = null;
  reference_status = null;
  reference_identity_match = false;
  issues = issue ∷ [];
}

abbrev pub is_transactional : Option Bool → Bool
is_transactional none = false
is_transactional (some has_storage) = has_storage

unfoldable pub cache_issues : CacheModule → List MlxIssue
unfolding equals_text
cache_issues c =
    unless (equals_text c.storage_api required_mlx_storage_api_version) storage_api_differs
    ++ unless (is_transactional c.lru_prompt_cache) storage_unavailable

-- The attributes of `server_module = None`.
abbrev pub no_server : ServerModule
no_server = record {
  server_api = null;
  argument_fields = [];
  base_revision = null;
  runtime_qualified = null;
  status = null;
}

abbrev pub server_or_none : Import ServerModule → ServerModule
server_or_none (imported m) = m
server_or_none not_found = no_server
server_or_none (failed e) = no_server

abbrev pub import_issues : Import ServerModule → List MlxIssue
import_issues (imported m) = []
import_issues not_found = server_not_found ∷ []
import_issues (failed e) = server_import_failed e ∷ []

unfoldable pub has_namespace : ServerModule → Bool
has_namespace m = contains "cache_namespace" m.argument_fields

unfoldable pub server_issues : ServerModule → List MlxIssue
unfolding equals_text has_namespace is_true
server_issues m =
    unless (equals_text m.server_api required_mlx_server_api_version) server_api_differs
    ++ (unless (has_namespace m) namespace_unavailable
        ++ (unless (equals_text m.base_revision reference_mlx_base_sha) base_differs
            ++ (unless (is_true m.runtime_qualified) not_marked_qualified
                ++ unless (equals_text m.status "reference_qualified") status_differs)))

unfoldable pub is_reference : ServerModule → Bool
unfolding equals_text is_true
is_reference m =
    equals_text m.base_revision reference_mlx_base_sha
    && (is_true m.runtime_qualified && equals_text m.status "reference_qualified")

unfoldable pub all_issues : CacheModule → Import ServerModule → List MlxIssue
unfolding cache_issues server_issues
all_issues c server =
    cache_issues c ++ (import_issues server ++ server_issues (server_or_none server))

-- The report on the two imports, of which the first succeeded.
unfoldable pub assess_modules :
    Option String → CacheModule → Import ServerModule → MlxCompatibilityReport
unfolding all_issues has_namespace is_reference
assess_modules version c server =
    let m = server_or_none server in
    record {
      installed = true;
      compatible = length (all_issues c server) == 0;
      mlx_lm_version = version;
      storage_api_version = c.storage_api;
      server_api_version = m.server_api;
      transactional_storage = is_transactional c.lru_prompt_cache;
      request_namespace = has_namespace m;
      reference_base_revision = m.base_revision;
      reference_runtime_qualified = m.runtime_qualified;
      reference_status = m.status;
      reference_identity_match = is_reference m;
      issues = all_issues c server;
    }

module _ {S : Type 0} (environment : MlxEnvironment S) where
  -- The rest of the probe, after the version.
  unfoldable pub probe_modules :
      Option String → Import CacheModule × S → Result MlxCompatibilityReport × S
  unfolding no_cache_report assess_modules
  probe_modules version (not_found, s) = (ok (no_cache_report version true not_importable), s)
  probe_modules version (failed e, s) =
      (ok (no_cache_report version false (cache_import_failed e)), s)
  probe_modules version (imported c, s) =
      let (server, s') = environment.import_server s in (ok (assess_modules version c server), s')

  unfoldable pub probe_mlx_backend : Exec S MlxCompatibilityReport
  unfolding continue probe_modules
  probe_mlx_backend s =
      continue (environment.version_reader s)
        (λ version s'. probe_modules version (environment.import_cache s'))
