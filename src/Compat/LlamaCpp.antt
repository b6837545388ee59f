-- ===== src/Compat/LlamaCpp.antt =====
-- src/statebraid/compat/llama_cpp.py: the probe of a running server, and its report.
pub mod Agreement
use statebraid.Prelude.{
  ℕ, suc, ℤ, pos, Bool, true, false, not, ◌&&◌, ◌||◌, List, [], ◌∷◌, ◌++◌, Option, none, some,
  String, nat_hashable, ◌==◌, length, if◌then◌else◌,
}
use statebraid.Prelude.Result.{Result, ok, raise, Error}
use statebraid.Prelude.Exec.{Exec, pure, continue, rescue, ◌>>=◌}
use statebraid.Prelude.Json.{
  Json, array, object, Items, end_of_items, item, Fields, lookup_field, as_object, as_integer,
  as_text, as_natural,
}
use statebraid.Backend.Observation.{is_none}
use statebraid.Backend.Descriptor.{
  BackendCapability, IntegrationLevel, backend_contract_version, integration_level,
}
use statebraid.Adapters.LlamaCpp.Source.{
  llama_cpp_reference_sha, llama_cpp_source_commit, llama_cpp_reference_source_match,
}
use statebraid.Adapters.LlamaCpp.Lookup.{JsonTransport}
use statebraid.Adapters.LlamaCpp.Descriptor.{llama_cpp_backend_descriptor}

-- The texts of `issues`.
pub data ProbeIssue : Type 0 where
  probe_failed : Error → ProbeIssue
  props_no_object slots_no_list slots_invalid build_info_missing : ProbeIssue
  commit_missing commit_differs total_slots_missing : ProbeIssue
  total_slots_differ single_domain : ProbeIssue

-- The fields that the probe fills in; the others are constants.
pub record LlamaCppCompatibilityReport : Type 0 where
  pub reachable : Bool
  pub compatible : Bool
  pub slots_endpoint : Bool
  pub slot_count : ℕ
  pub total_slots : Option ℤ
  pub build_info : Option String
  pub source_commit : Option (List ℕ)
  pub reference_source_match : Bool
  pub issues : List ProbeIssue

-- The defaults of the other fields.
abbrev pub reference_sha : String
reference_sha = llama_cpp_reference_sha

abbrev pub contract_version : String
contract_version = backend_contract_version

abbrev pub declared_capabilities : List BackendCapability
declared_capabilities = llama_cpp_backend_descriptor.capabilities

abbrev pub declared_level : IntegrationLevel
declared_level = integration_level llama_cpp_backend_descriptor

unfoldable pub reference_qualified : LlamaCppCompatibilityReport → Bool
reference_qualified report = report.compatible && report.reference_source_match

abbrev pub blank_report : LlamaCppCompatibilityReport
blank_report = record {
  reachable = true;
  compatible = false;
  slots_endpoint = false;
  slot_count = 0;
  total_slots = none;
  build_info = none;
  source_commit = none;
  reference_source_match = false;
  issues = [];
}

-- `isinstance(value, list)`.
unfoldable pub as_items : Json → Option Items
as_items (array items) = some items
as_items _ = none

unfoldable pub count_items : Items → ℕ
count_items end_of_items = 0
count_items (item value rest) = suc (count_items rest)

-- The integer `id` of a slot.
unfoldable pub slot_id : Json → Option ℤ
unfolding as_object as_integer
slot_id value = elim (as_object value) [
  | none ↦ none
  | some fields ↦ as_integer (lookup_field "id" fields)
]

-- The ids of `valid_slots`.
unfoldable pub valid_slots : Items → List ℤ
unfolding slot_id
valid_slots end_of_items = []
valid_slots (item value rest) =
    let others = valid_slots rest in elim (slot_id value) [ none ↦ others | some n ↦ n ∷ others ]

-- `total_slots`, where it is a positive integer.
unfoldable pub positive_total : Json → Option ℕ
unfolding as_integer as_natural
positive_total value = elim (as_integer value) [
  | none ↦ none
  | some n ↦ elim (as_natural n) [ none ↦ none | some m ↦ if m == 0 then none else some m ]
]

unfoldable pub slots_issue : ℕ → ℕ → List ProbeIssue
slots_issue n_valid n_slots =
    if not (n_valid == n_slots) || n_valid == 0 then slots_invalid ∷ [] else []

unfoldable pub commit_of : Option String → Option (List ℕ)
commit_of none = none
commit_of (some text) = llama_cpp_source_commit text

unfoldable pub matches : Option String → Bool
matches none = false
matches (some text) = llama_cpp_reference_source_match text

unfoldable pub build_issue : Option String → List ProbeIssue
unfolding commit_of matches
build_issue none = build_info_missing ∷ []
build_issue (some text) =
    if is_none (commit_of (some text))
    then commit_missing ∷ []
    else if matches (some text)
    then []
    else commit_differs ∷ []

unfoldable pub total_issue : Option ℕ → ℕ → List ProbeIssue
total_issue none n_valid = total_slots_missing ∷ []
total_issue (some total) n_valid = if total == n_valid then [] else total_slots_differ ∷ []

-- The issues that make a server incompatible.
unfoldable pub blocking : Fields → Items → List ProbeIssue
unfolding valid_slots count_items slots_issue build_issue positive_total total_issue as_text
blocking props slots =
    slots_issue (length (valid_slots slots)) (count_items slots)
    ++ (build_issue (as_text (lookup_field "build_info" props))
        ++ total_issue (positive_total (lookup_field "total_slots" props))
            (length (valid_slots slots)))

-- The report on two answers of the right form.
unfoldable pub assess_fields : Fields → Items → LlamaCppCompatibilityReport
unfolding blocking
assess_fields props slots = record {
  reachable = true;
  compatible = length (blocking props slots) == 0;
  slots_endpoint = true;
  slot_count = length (valid_slots slots);
  total_slots = elim (positive_total (lookup_field "total_slots" props)) [
    | none ↦ none
    | some n ↦ some (pos n)
  ];
  build_info = as_text (lookup_field "build_info" props);
  source_commit = commit_of (as_text (lookup_field "build_info" props));
  reference_source_match = matches (as_text (lookup_field "build_info" props));
  issues = blocking props slots ++ single_domain ∷ [];
}

-- The report on two answers.
unfoldable pub assess : Json → Json → LlamaCppCompatibilityReport
unfolding as_object as_items assess_fields
assess props slots = elim (as_object props) [
  | none ↦ record blank_report {
    slots_endpoint = not (is_none (as_items slots));
    issues = props_no_object ∷ [];
  }
  | some fields ↦ elim (as_items slots) [
    | none ↦ record blank_report {
      total_slots = as_integer (lookup_field "total_slots" fields);
      build_info = as_text (lookup_field "build_info" fields);
      issues = slots_no_list ∷ [];
    }
    | some items ↦ assess_fields fields items
  ]
]

-- The report where a request raised.
unfoldable pub unreachable_report : Error → LlamaCppCompatibilityReport
unreachable_report e = record blank_report { reachable = false; issues = probe_failed e ∷ [] }

module _ {S : Type 0} (transport : JsonTransport S) where
  unfoldable pub request_both : Exec S LlamaCppCompatibilityReport
  unfolding continue assess
  request_both = do
    props ← transport.get_json "/props"
    slots ← transport.get_json "/slots"
    pure (assess props slots)

  unfoldable pub probe_llama_cpp_server : Exec S LlamaCppCompatibilityReport
  unfolding rescue request_both
  probe_llama_cpp_server s = rescue (request_both s) (λ e. pure (unreachable_report e))
