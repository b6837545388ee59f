-- ===== src/Tests/Reference.antt =====
-- The theorems on exports at a package whose patch is two bytes.
use statebraid.Prelude.{
  pos, ◌≡◌, ◌⊎◌, refl, true, false, nat_hashable, list_hashable, text_discrete, List, [], ◌∷◌, some,
  String, string_hashable, ◌==◌, if◌then◌else◌,
}
use statebraid.Prelude.Result.{ok, raise, Error}
use statebraid.Prelude.Exec.{pure}
use statebraid.Prelude.Exec.Keeps.{Keeps}
use statebraid.Integrations.{Environment, Bytes}
use statebraid.Integrations.LlamaCppManaged.{managed_llama_cpp_patch_sha256}
use statebraid.Reference.{Command, llama_cpp_managed, main}
use statebraid.Reference.Safety.{OnlyWrites, main_writes_pinned}
use statebraid.Reference.Checked.{IsChecked, export_checks_first}

abbrev Files : Type 0
Files = List (String × Bytes)

-- Every call of git returns 0 and prints nothing.
abbrev machine : Environment Files
machine = record {
  read_resource = λ name. pure (1 ∷ 2 ∷ []);
  sha256 = λ content. if content == 1 ∷ 2 ∷ [] then managed_llama_cpp_patch_sha256 else "";
  write_bytes = λ path content files. (ok tt, (path, content) ∷ files);
  resolve = λ path. pure path;
  is_dir = λ path. pure true;
  git = λ root args input. pure (record { returncode = pos 0; stdout = [] });
}

-- Every file has the pinned digest.
ArePinned : Files → Type 0
ArePinned [] = Unit {0}
ArePinned ((path, content) ∷ files) =
    (machine.sha256 content ≡ managed_llama_cpp_patch_sha256) × ArePinned files

machine_only_writes : OnlyWrites machine ArePinned
machine_only_writes = record {
  reads = λ name. record { keeps = λ s now. now };
  resolves = λ path. record { keeps = λ s now. now };
  looks = λ path. record { keeps = λ s now. now };
  runs = λ root args input. record { keeps = λ s now. now };
}

abbrev export : Command
export = llama_cpp_managed "m1.patch" (some "/src/llama.cpp")

main_writes_pinned_example : Keeps ArePinned (main machine export)
unfolding ArePinned
main_writes_pinned_example =
    main_writes_pinned machine ArePinned machine_only_writes export
      (λ content fine. record { keeps = λ s now. (fine, now) })

path_given : ((◌==◌ {A = String} "/src/llama.cpp" "") ≡ false)
unfolding text_discrete
path_given = refl

export_checks_first_example :
    ((x : Error) × ((main machine export []).0 ≡ raise x) × ArePinned (main machine export []).1)
    ⊎ ((root : String) × IsChecked machine "/src/llama.cpp" root)
unfolding ArePinned
export_checks_first_example =
    export_checks_first machine ArePinned machine_only_writes "m1.patch" "/src/llama.cpp" path_given
      [] tt
