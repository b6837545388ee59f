-- ===== src/Reference/Safety.antt =====
-- What an export writes, and behind which checks.
use statebraid.Prelude.{
  int_hashable, nat_hashable, list_hashable, ◌≡◌, inl, inr, List, Option, none, some, String,
  string_hashable, ◌==◌, eq_of_==, arith, Bool-cases,
}
use statebraid.Prelude.Result.{ok}
use statebraid.Prelude.Exec.Keeps.{Keeps, bind-Keeps, given-Keeps, local-Keeps}
use statebraid.Integrations.{Environment, Bytes, write_patch, verify_patch, require_digest}
use statebraid.Integrations.Mlx.{
  write_reference_patch, reference_patch_name, reference_patch_sha256,
}
use statebraid.Integrations.LlamaCppManaged.{
  managed_llama_cpp_patch_name, managed_llama_cpp_patch_sha256, guard, succeeded, check_head,
  check_status, managed_patch_bytes, verify_managed_patch, write_managed_patch, check_checkout,
  check_managed_patch,
}
use statebraid.Reference.{Command, mlx, llama_cpp_managed, check_base, main}

abbrev pub output_of : Command → String
output_of (mlx output) = output
output_of (llama_cpp_managed output _) = output

abbrev pub pinned_of : Command → String
pinned_of (mlx _) = reference_patch_sha256
pinned_of (llama_cpp_managed _ _) = managed_llama_cpp_patch_sha256

module _ {S : Type 0} (e : Environment S) where
  -- What everything but a write leaves.
  pub record OnlyWrites (P : S → Type 0) : Type 0 where
    pub reads : (name : String) → Keeps P (e.read_resource name)
    pub resolves : (path : String) → Keeps P (e.resolve path)
    pub looks : (path : String) → Keeps P (e.is_dir path)
    pub runs :
        (root : String) (args : List String) (input : Option Bytes)
        → Keeps P (e.git root args input)

  module _ (P : S → Type 0) (o : OnlyWrites P) where
    required :
        (pinned : String) (content checked : Bytes)
        → require_digest e pinned content ≡ ok checked
        → e.sha256 checked ≡ pinned
    unfolding require_digest
    required pinned content checked fine = elim (Bool-cases (e.sha256 content == pinned)) [
      | inl same ↦ ground (arith, same, fine, eq_of_== (e.sha256 content) pinned same)
      | inr other ↦ absurd (ground (arith, other, fine))
    ]

    digest_kept :
        (patch_name pinned output : String)
        → ((content : Bytes) → e.sha256 content ≡ pinned → Keeps P (e.write_bytes output content))
        → Keeps P (write_patch e patch_name pinned output)
    unfolding write_patch
    digest_kept patch_name pinned output writes = bind-Keeps (o.reads patch_name) (λ content.
        given-Keeps (require_digest e pinned content) (λ checked fine.
          bind-Keeps (writes checked (required pinned content checked fine)) (λ _. local-Keeps)))

    checkout-Keeps : (root : String) → Keeps P (check_checkout e root)
    unfolding check_checkout managed_patch_bytes
    checkout-Keeps root = bind-Keeps (o.runs root _ none) (λ top.
        given-Keeps (guard (succeeded top)) (λ _ _. bind-Keeps (o.runs root _ none) (λ head.
          given-Keeps (check_head head) (λ _ _. bind-Keeps (o.runs root _ none) (λ status.
            given-Keeps (check_status status) (λ _ _.
              bind-Keeps (o.reads managed_llama_cpp_patch_name) (λ patch.
                bind-Keeps (o.runs root _ (some patch))
                  (λ result. given-Keeps (guard (succeeded result)) (λ _ _. local-Keeps)))))))))

    pub check-Keeps : (path : String) → Keeps P (check_managed_patch e path)
    unfolding check_managed_patch verify_managed_patch verify_patch
    check-Keeps path =
        bind-Keeps (bind-Keeps (o.reads managed_llama_cpp_patch_name) (λ _. local-Keeps))
          (λ verified. given-Keeps (guard verified) (λ _ _. bind-Keeps (o.resolves path) (λ root.
            bind-Keeps (o.looks root)
              (λ found. given-Keeps (guard found) (λ _ _. checkout-Keeps root)))))

    base-Keeps : (checkout : Option String) → Keeps P (check_base e checkout)
    unfolding check_base
    base-Keeps none = local-Keeps
    base-Keeps (some path) = elim (Bool-cases (path == "")) [
      | inl blank ↦ rw blank local-Keeps
      | inr given ↦ rw given (bind-Keeps (check-Keeps path) (λ _. local-Keeps))
    ]

    -- An export, whatever it does, changes the files only by writing bytes with the pinned digest of its
    -- patch to its output.
    pub main_writes_pinned :
        (c : Command)
        → ((content : Bytes)
            → e.sha256 content ≡ pinned_of c
            → Keeps P (e.write_bytes (output_of c) content))
        → Keeps P (main e c)
    unfolding main write_reference_patch write_managed_patch
    main_writes_pinned (mlx output) writes =
        bind-Keeps (digest_kept reference_patch_name reference_patch_sha256 output writes)
          (λ _. local-Keeps)
    main_writes_pinned (llama_cpp_managed output checkout) writes =
        bind-Keeps (base-Keeps checkout) (λ _.
          bind-Keeps
            (digest_kept managed_llama_cpp_patch_name managed_llama_cpp_patch_sha256 output writes)
            (λ _. local-Keeps))
