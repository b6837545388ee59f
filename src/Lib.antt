-- ===== src/Lib.antt =====
-- StateBraid keeps the prefix caches of an inference backend alive over the turns of an agent. Its
-- core decides which caches stay resident and carries the decision out in the backend; around it are a
-- contract that backends declare, adapters, and a generation guard.
--
-- Prelude: Python's values as the model has them. Prelude/Lists and Prelude/Sets hold the list and set
-- operations, Prelude/Hash equality (a `Hashable` of Python is a type with a decidable one),
-- Prelude/Int integers that a caller may pass negative, Prelude/Result and Prelude/Exec exceptions
-- and state, Prelude/Json the values of JSON and Json/Forms their forms, Prelude/Exec/Keeps what calls keep whether or not they raise. Dict: dictionaries in the
-- order of insertion, and their laws.
--
-- Cache, the directory src/statebraid/cache:
--   Cache/Key       `CacheKey` and `matched_prefix_key` of policy.py, and the prefix test of
--                   `plan_admission`.
--   Cache/Policy    `WorkingSetPolicy`: its fields are split into what `__init__` fixes (`Config`) and
--                   what changes (`PolicySnapshot`, the record that `capture_state` returns). The
--                   methods are in Victims (the private helpers), Plan (`plan_admission`), Candidate
--                   (`plan_stable_candidate`), Trim (`plan_trim`) and Commit (`commit`,
--                   `commit_trim`); a method that changes the policy returns the new one. The other
--                   modules below Cache/Policy have the proofs: Listing and Invariant on
--                   well-formed states, Lookup and Room on the search for victims, Evictions, Effect
--                   and Admission on plans and their commits, WorkingSet and Protection on what a plan
--                   spares, Trimming, Lineage, Quota, Probation,
--                   Promotion and Persistence on stable candidates, Lifecycle on what every operation keeps.
--   Cache/Coordinator `CacheCoordinator` over any `Backend`, the protocol `TransactionalBackend`: each
--                   of its calls takes the backend's store to a result and a store, and may raise
--                   with the store changed. Laws has `IsTransactional`, what a backend promises for
--                   the keys that it serves; Inserted, Rollback, Sync, Recovery, Forget and System
--                   prove.
--   Cache/Generation generation.py, with the backend's callbacks as arguments; Safety proves.
--   Cache/Namespace namespace.py: trust domains, by their code points.
-- Adapters, the directory src/statebraid/adapters: Adapters/LlamaCpp is llama_cpp.py, over a
-- `JsonTransport` that answers requests and may raise; Prelude/Json has the answers.
-- Adapters/LlamaCpp/Source writes the search of the build's commit out as a walk over code points,
-- Lookup has `LlamaCppHTTPAdapter`, Descriptor its descriptor; Admission, Counts and Reuse prove. Adapters/Mlx is mlx.py: the
-- storage backend over MLX-LM's prompt cache; Mlx/Facade has `MLXStateBraidPromptCache`, Mlx/System proves,
-- and Mlx/Generation has `generation_safe_prompt_cache_hit`.
-- Adapters/LlamaCppManaged is llama_cpp_managed.py:
--   Answers, Mutations  what the adapter makes of the server's JSON; Answers/Laws proves.
--   Http                `LlamaCppManagedHTTPAdapter`, over the same transport.
--   Storage             `LlamaCppManagedStorageBackend`: its store is the `Registry` of this process and
--                       the server's state. `storage` is the `Backend` that the coordinator gets, and
--                       Storage/Transactional fills `IsTransactional` for it. Storage/Cleanup has the
--                       calls that capture and drop; Binding, Retiring, Kept, Flush, Captured and
--                       Accounted prove.
--   PromptCache         `LlamaCppStateBraidPromptCache`, whose state is that of the coordinator over the
--                       storage; PromptCache/Lookup has `prepare`, `lookup` and `trim_to`; Sound, System,
--                       Selection, Reuse and Accounts prove.
-- Backend, the directory src/statebraid/backend: Backend/Observation has `LookupObservation` of
-- contract.py, Backend/Descriptor the capabilities and `BackendDescriptor`, where `post_init` is
-- `__post_init__`; Descriptor/Build has the constructors with the tests of their arguments, Dict `to_dict`;
-- Levels, Canonical, Rebuild and Roundtrip prove. Backend/Conformance is conformance.py: the runner and
-- the report, the cases in Cases, `run_backend_conformance` in Suite, over any driver; Report proves.
-- Compat/LlamaCpp is src/statebraid/compat/llama_cpp.py: `probe_llama_cpp_server` over the same transport,
-- with its requests' exceptions as an error in the report; Agreement relates it to the adapter's guards.
-- Compat/Mlx is compat/mlx.py beside it: `probe_mlx_backend`, over an importer; Exact proves.
-- Doctor is src/statebraid/doctor.py, whose `main` runs the probes, and Support support.py; Doctor/Exit
-- proves. Integrations is the directory src/statebraid/integrations, Integrations/Mlx and
-- Integrations/LlamaCppManaged its two packages; Reference is reference.py, which exports their patches;
-- Reference/Safety and Reference/Checked prove. Qualification/Determinism is
-- qualification/determinism_audit.py, where Verdict proves, and Qualification/Canary
-- qualification/llama_cpp_real_gguf/mechanical_canary.py, whose requests are a `Client`; Canary/Run has
-- the run, and Run/Exact proves; Qualification/Requests has what both make of answers and texts.
-- Tests: the theorems at concrete inputs.
--
-- The policy plans, and a client or the coordinator commits. The coordinator
-- captures the affected keys, changes the backend, then commits; where the backend raises, it puts
-- policy and backend back. Its lock makes each method one step, so interleaved callers are sequences
-- of steps.
--
-- Numbers: sizes in bytes and hit counts are natural numbers, so `max(0, int(nbytes))` is the
-- identity; subtraction stops at 0 where the source could go below, which only a byte counter that is
-- less than the sizes it stands for could reach. The limits and targets that a caller passes are
-- integers and are cut at 0 as in the source. Python's integers do not overflow.
--
-- Loops: the loops of `plan_admission` and `plan_trim` run on fuel, one more than there are resident
-- keys: each round evicts another resident key, and the one more is for the last test. A loop that
-- ran out would return a plan with the reason `out_of_fuel`, or raise `diverged`. All other loops run
-- over a list or a count.
--
-- Parameters: the transport, with Python's comparison of a float that it read with an integer; the
-- callbacks of generation.py; the driver factory of the conformance suite;
-- `urlparse` and `ipaddress`; the importer and the version reader of compat/mlx.py; the resources, files,
-- SHA-256 and git of the exports (`Environment`); `str`, `int` and the truth of
-- unusual JSON values in the audit and the canary. Nothing is
-- assumed of what they return. MLX-LM's prompt cache is a parameter too: the theorems on the facade
-- suppose that its storage is transactional (`IsTransactional`), the contract that
-- `transactional_storage()` stands for, and that its lookups bind no key (`FetchKeepsBindings`);
-- the guard supposes of its callbacks only what they return: trimming drops the last token of a payload
-- that can be trimmed, and a lookup accounts for its prompt (`IsFaithful`).
-- The theorems on exports speak of any property of the machine that everything but a write leaves
-- (`OnlyWrites`).
--
-- Not modelled: the messages of exceptions, and those that are no `Exception` (the handlers do not
-- catch them); `snapshot()` and the `to_dict` of reports, which print;
-- `UrllibJSONTransport`, the parsing of command lines, the release gates and the other
-- qualification scripts, which talk to servers, files and processes; log messages.
pub mod Prelude
pub mod Dict
pub mod Cache
pub mod Backend
pub mod Adapters
pub mod Compat
pub mod Integrations
pub mod Reference
pub mod Qualification
pub mod Support
pub mod Doctor
pub mod Tests
