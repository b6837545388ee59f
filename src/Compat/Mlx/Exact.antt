-- ===== src/Compat/Mlx/Exact.antt =====
-- When the probe of MLX-LM reports a compatible backend.
use statebraid.Prelude.{
  ◌≡◌, ◌↔◌, refl, ap, ◌∙◌, Bool, true, false, List, [], ◌∷◌, ◌++◌, Option, none, some, String, ◌==◌,
  contains, length, arith, eq_of_==, ==_refl, string_hashable, nat_hashable,
}
use statebraid.Prelude.Result.{Result, ok, raise, ok-injective}
use statebraid.Prelude.Exec.{Exec, continue}
use statebraid.Prelude.Json.{Json, null, boolean, integer, float, text, array, object, as_text}
use statebraid.Adapters.LlamaCppManaged.Answers.{is_true}
use statebraid.Adapters.LlamaCppManaged.Mutations.{equals_text}
use statebraid.Compat.Mlx.{
  Import, imported, not_found, failed, CacheModule, ServerModule, MlxEnvironment, MlxIssue,
  MlxCompatibilityReport, unless, no_cache_report, is_transactional, cache_issues, server_or_none,
  import_issues, has_namespace, server_issues, is_reference, all_issues, assess_modules,
  probe_modules, probe_mlx_backend, required_mlx_storage_api_version,
  required_mlx_server_api_version, reference_mlx_base_sha,
}

text_exact : (value : Json) (s : String) → equals_text value s ≡ true ↔ value ≡ text s
unfolding equals_text as_text
text_exact (text t) s =
    (λ e. ap text (eq_of_== t s e), λ e. let same_text : t ≡ s = cc in rw same_text (==_refl s))
text_exact null s = (λ e. cc, λ e. cc)
text_exact (boolean b) s = (λ e. cc, λ e. cc)
text_exact (integer z) s = (λ e. cc, λ e. cc)
text_exact (float x) s = (λ e. cc, λ e. cc)
text_exact (array items) s = (λ e. cc, λ e. cc)
text_exact (object fields) s = (λ e. cc, λ e. cc)

true_exact : (value : Json) → is_true value ≡ true ↔ value ≡ boolean true
unfolding is_true
true_exact (boolean b) = (λ e. ap boolean e, λ e. cc)
true_exact (text t) = (λ e. cc, λ e. cc)
true_exact null = (λ e. cc, λ e. cc)
true_exact (integer z) = (λ e. cc, λ e. cc)
true_exact (float x) = (λ e. cc, λ e. cc)
true_exact (array items) = (λ e. cc, λ e. cc)
true_exact (object fields) = (λ e. cc, λ e. cc)

transactional_exact : (o : Option Bool) → is_transactional o ≡ true ↔ o ≡ some true
transactional_exact none = (λ e. cc, λ e. cc)
transactional_exact (some b) = (λ e. ap some e, λ e. cc)

unless_exact : (b : Bool) (issue : MlxIssue) → unless b issue ≡ [] ↔ b ≡ true
unless_exact true issue = (λ e. refl, λ e. refl)
unless_exact false issue = (λ e. cc, λ e. cc)

append_exact : (xs ys : List MlxIssue) → xs ++ ys ≡ [] ↔ (xs ≡ []) × (ys ≡ [])
append_exact [] ys = (λ e. (refl, e), λ e. e.1)
append_exact (x ∷ xs) ys = (λ e. cc, λ e. cc)

empty_exact : (xs : List MlxIssue) → (length xs == 0) ≡ true ↔ xs ≡ []
empty_exact [] = (λ e. refl, λ e. ground arith)
empty_exact (x ∷ xs) = (λ e. absurd (ground (arith, e)), λ e. cc)

-- A test that adds an issue, before others.
both_exact :
    {P Q : Type 0} (b : Bool) (issue : MlxIssue) (rest : List MlxIssue)
    → b ≡ true ↔ P
    → rest ≡ [] ↔ Q
    → unless b issue ++ rest ≡ [] ↔ P × Q
both_exact b issue rest p q = (
  λ e.
      let (x, y) = (append_exact (unless b issue) rest).0 e in
      (p.0 ((unless_exact b issue).0 x), q.0 y),
  λ e. (append_exact (unless b issue) rest).1 ((unless_exact b issue).1 (p.1 e.0), q.1 e.1),
)

one_exact : {P : Type 0} (b : Bool) (issue : MlxIssue) → b ≡ true ↔ P → unless b issue ≡ [] ↔ P
one_exact b issue p = (λ e. p.0 ((unless_exact b issue).0 e), λ e. (unless_exact b issue).1 (p.1 e))

-- What the probe asks of the two modules.
abbrev pub CacheServes : CacheModule → Type 0
CacheServes c = (c.storage_api ≡ text "0.1") × (c.lru_prompt_cache ≡ some true)

abbrev pub ServerServes : ServerModule → Type 0
ServerServes m =
    (m.server_api ≡ text "0.1")
    × ((contains "cache_namespace" m.argument_fields ≡ true)
        × ((m.base_revision ≡ text "7fb4be44d560e5b74595210f83cb6003a57e52a7")
            × ((m.runtime_qualified ≡ boolean true) × (m.status ≡ text "reference_qualified"))))

abbrev pub ImportServes : {M : Type 0} → (M → Type 0) → Import M → Type 0
ImportServes Serves (imported m) = Serves m
ImportServes Serves not_found = ⊥
ImportServes Serves (failed e) = ⊥

same : (b : Bool) → b ≡ true ↔ b ≡ true
same b = (λ e. e, λ e. e)

cache_exact : (c : CacheModule) → cache_issues c ≡ [] ↔ CacheServes c
unfolding cache_issues
cache_exact c =
    both_exact _ _ _ (text_exact c.storage_api required_mlx_storage_api_version)
      (one_exact _ _ (transactional_exact c.lru_prompt_cache))

server_exact : (m : ServerModule) → server_issues m ≡ [] ↔ ServerServes m
unfolding server_issues has_namespace
server_exact m = both_exact _ _ _ (text_exact m.server_api required_mlx_server_api_version) (
    both_exact _ _ _ (same (has_namespace m)) (
      both_exact _ _ _ (text_exact m.base_revision reference_mlx_base_sha) (
        both_exact _ _ _ (true_exact m.runtime_qualified)
          (one_exact _ _ (text_exact m.status "reference_qualified")))))

import_exact :
    (server : Import ServerModule)
    → import_issues server ++ server_issues (server_or_none server) ≡ []
      ↔ ImportServes ServerServes server
import_exact (imported m) = server_exact m
import_exact not_found = (λ e. cc, λ e. absurd e)
import_exact (failed x) = (λ e. cc, λ e. absurd e)

modules_exact :
    (version : Option String) (c : CacheModule) (server : Import ServerModule)
    → (assess_modules version c server).compatible ≡ true
      ↔ CacheServes c × ImportServes ServerServes server
unfolding assess_modules all_issues
modules_exact version c server =
    let xs = cache_issues c in
    let ys = import_issues server ++ server_issues (server_or_none server) in
    (
      λ e.
          let (x, y) = (append_exact xs ys).0 ((empty_exact (xs ++ ys)).0 e) in
          ((cache_exact c).0 x, (import_exact server).0 y),
      λ e.
          (empty_exact (xs ++ ys)).1
            ((append_exact xs ys).1 ((cache_exact c).1 e.0, (import_exact server).1 e.1)),
    )

reference_lem : (m : ServerModule) → ServerServes m → is_reference m ≡ true
unfolding is_reference
reference_lem m (_, (_, (base, (qualified, status)))) = ground (
  arith,
  (text_exact m.base_revision reference_mlx_base_sha).1 base,
  (true_exact m.runtime_qualified).1 qualified,
  (text_exact m.status "reference_qualified").1 status,
)

matched :
    (version : Option String) (c : CacheModule) (server : Import ServerModule)
    → ImportServes ServerServes server
    → (assess_modules version c server).reference_identity_match ≡ true
unfolding assess_modules
matched version c (imported m) q = reference_lem m q
matched version c not_found q = absurd q
matched version c (failed x) q = absurd q

-- What the probe's report says of the two imports.
pub record IsExact (report : MlxCompatibilityReport) (c : Import CacheModule)
    (server : Import ServerModule) : Type 0 where
  pub exact :
      report.compatible ≡ true ↔ ImportServes CacheServes c × ImportServes ServerServes server
  pub identity : report.compatible ≡ true → report.reference_identity_match ≡ true

modules-IsExact :
    (version : Option String) (c : CacheModule) (server : Import ServerModule)
    → IsExact (assess_modules version c server) (imported c) server
modules-IsExact version c server = record {
  exact = modules_exact version c server;
  identity = λ e. matched version c server ((modules_exact version c server).0 e).1;
}

no_cache-IsExact :
    (version : Option String) (missing : Bool) (issue : MlxIssue) (c : Import CacheModule)
    (server : Import ServerModule)
    → ¬ (ImportServes CacheServes c)
    → IsExact (no_cache_report version missing issue) c server
unfolding no_cache_report
no_cache-IsExact version missing issue c server no_module = record {
  exact = (λ e. cc, λ e. absurd (no_module e.0));
  identity = λ e. cc;
}

module _ {S : Type 0} (environment : MlxEnvironment S) where
  -- The two imports as the probe makes them, one after the other.
  abbrev pub server_after : Import CacheModule × S → Import ServerModule
  server_after r = (environment.import_server r.1).0

  modules_report :
      (version : Option String) (r : Import CacheModule × S)
      → (report : MlxCompatibilityReport) × ((probe_modules environment version r).0 ≡ ok report)
        × IsExact report r.0 (server_after r)
  unfolding probe_modules
  modules_report version (imported c, s) =
      (_, refl, modules-IsExact version c (environment.import_server s).0)
  modules_report version (not_found, s) =
      (_, refl, no_cache-IsExact version true _ not_found _ (λ q. q))
  modules_report version (failed e, s) =
      (_, refl, no_cache-IsExact version false _ (failed e) _ (λ q. q))

  version_read :
      (r : Result (Option String) × S) (version : Option String)
      → r.0 ≡ ok version
      → (f : Option String → Exec S MlxCompatibilityReport) → continue r f ≡ f version r.1
  unfolding continue
  version_read (ok v, s) version e f = ap (λ v. f v s) (ok-injective v version e)
  version_read (raise x, s) version e f = cc

  -- Where the version is read, the probe returns a report, whatever the two imports do. It says that the
  -- backend is compatible exactly if both imports succeed and the modules have the required versions
  -- of the two interfaces, the transactional storage, the field `cache_namespace` and the three marks of
  -- the reference; then its `reference_identity_match` is true.
  pub probe_mlx-IsExact :
      (s : S) (version : Option String)
      → (environment.version_reader s).0 ≡ ok version
      → let first = environment.import_cache (environment.version_reader s).1 in
        (report : MlxCompatibilityReport) × ((probe_mlx_backend environment s).0 ≡ ok report)
        × IsExact report first.0 (server_after first)
  unfolding probe_mlx_backend
  probe_mlx-IsExact s version e =
      let (report, made, exact) =
        modules_report version (environment.import_cache (environment.version_reader s).1) in
      (
        report,
        ap (λ r. r.0) (version_read (environment.version_reader s) version e _) ∙ made,
        exact,
      )
