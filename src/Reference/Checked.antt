-- ===== src/Reference/Checked.antt =====
-- What the check of a base checkout establishes ahead of an export.
use mathlib.Core.Path.{subst}
use statebraid.Prelude.{
  pos, int_hashable, nat_hashable, list_hashable, ◌≡◌, ◌⊎◌, inl, inr, refl, sym, ap, ◌∙◌, Bool,
  true, false, List, [], ◌∷◌, none, some, String, string_hashable, ◌==◌, eq_of_==, arith,
}
use statebraid.Prelude.Result.{Result-cases, ok, ok-injective, raise, Error}
use statebraid.Prelude.Exec.{pure, local, continue, returned, continue_raise}
use statebraid.Adapters.LlamaCpp.Source.{codes}
use statebraid.Integrations.{
  Environment, Bytes, CompletedProcess, verify_patch, decode_ascii, strip,
}
use statebraid.Integrations.LlamaCppManaged.{
  managed_llama_cpp_base_sha, managed_llama_cpp_patch_name, managed_llama_cpp_patch_sha256, guard,
  succeeded, is_empty, check_head, check_status, managed_patch_bytes, verify_managed_patch,
  check_checkout, check_managed_patch,
}
use statebraid.Reference.{llama_cpp_managed, check_base, main}
use statebraid.Reference.Safety.{OnlyWrites, check-Keeps}

guard-true : (b : Bool) (u : Unit {0}) → guard b ≡ ok u → b ≡ true
guard-true true u e = refl
guard-true false u e = cc

-- The calls of git.
abbrev top_arguments : List String
top_arguments = "rev-parse" ∷ "--show-toplevel" ∷ []

abbrev pub head_arguments : List String
head_arguments = "rev-parse" ∷ "HEAD" ∷ []

abbrev pub status_arguments : List String
status_arguments = "status" ∷ "--porcelain" ∷ []

abbrev pub apply_arguments : List String
apply_arguments = "apply" ∷ "--check" ∷ "--whitespace=nowarn" ∷ "-" ∷ []

module _ {S : Type 0} (e : Environment S) where
  -- The packaged patch had the pinned digest when the check read it first.
  pub record IsVerified : Type 0 where
    pub before : S
    pub content : Bytes
    pub read : (e.read_resource managed_llama_cpp_patch_name before).0 ≡ ok content
    pub pinned : e.sha256 content ≡ managed_llama_cpp_patch_sha256

  -- The head of the checkout is the base, the checkout is clean, and the patch that is read applies.
  pub record AppliesTo (root : String) : Type 0 where
    pub at_head : S
    pub head : CompletedProcess
    pub ran_head : (e.git root head_arguments none at_head).0 ≡ ok head
    pub head_fine : head.returncode ≡ pos 0
    pub is_base : strip (decode_ascii head.stdout) ≡ codes managed_llama_cpp_base_sha
    pub at_status : S
    pub status : CompletedProcess
    pub ran_status : (e.git root status_arguments none at_status).0 ≡ ok status
    pub status_fine : status.returncode ≡ pos 0
    pub is_clean : status.stdout ≡ []
    pub at_read : S
    pub patch : Bytes
    pub read : (e.read_resource managed_llama_cpp_patch_name at_read).0 ≡ ok patch
    pub result : CompletedProcess
    pub ran_apply :
        (e.git root apply_arguments
          (some patch)
          (e.read_resource managed_llama_cpp_patch_name at_read).1).0
        ≡ ok result
    pub applies : result.returncode ≡ pos 0

  fine_status : (p : CompletedProcess) → succeeded p ≡ true → p.returncode ≡ pos 0
  fine_status p fine = eq_of_== p.returncode (pos 0) fine

  head_checked :
      (p : CompletedProcess) (u : Unit {0})
      → check_head p ≡ ok u
      → (p.returncode ≡ pos 0) × (strip (decode_ascii p.stdout) ≡ codes managed_llama_cpp_base_sha)
  unfolding check_head
  head_checked p u fine =
      let both = guard-true _ u fine in
      (fine_status p (ground (arith, both)), eq_of_== _ _ (ground (arith, both)))

  empty_bytes : (b : Bytes) → is_empty b ≡ true → b ≡ []
  empty_bytes [] fine = refl
  empty_bytes (x ∷ b) fine = cc

  status_checked :
      (p : CompletedProcess) (u : Unit {0})
      → check_status p ≡ ok u
      → (p.returncode ≡ pos 0) × (p.stdout ≡ [])
  unfolding check_status
  status_checked p u fine =
      let both = guard-true _ u fine in
      (fine_status p (ground (arith, both)), empty_bytes p.stdout (ground (arith, both)))

  checkout_applies :
      (root : String) (s : S) (out : String)
      → (check_checkout e root s).0 ≡ ok out
      → AppliesTo root × (root ≡ out)
  unfolding check_checkout managed_patch_bytes
  checkout_applies root s out done =
      let (top, _, d1) = returned (e.git root top_arguments none) _ s out done in
      let s1 = (e.git root top_arguments none s).1 in
      let (_, _, d2) = returned (local (guard (succeeded top))) _ s1 out d1 in
      let (head, ran_head, d3) = returned (e.git root head_arguments none) _ s1 out d2 in
      let s2 = (e.git root head_arguments none s1).1 in
      let (u, head_fine, d4) = returned (local (check_head head)) _ s2 out d3 in
      let (status, ran_status, d5) = returned (e.git root status_arguments none) _ s2 out d4 in
      let s3 = (e.git root status_arguments none s2).1 in
      let (v, status_fine, d6) = returned (local (check_status status)) _ s3 out d5 in
      let (patch, read, d7) = returned (e.read_resource managed_llama_cpp_patch_name) _ s3 out d6 in
      let s4 = (e.read_resource managed_llama_cpp_patch_name s3).1 in
      let (result, ran_apply, d8) =
        returned (e.git root apply_arguments (some patch)) _ s4 out d7 in
      let (w, fine, last) =
        returned (local (guard (succeeded result))) _ (e.git root apply_arguments (some patch) s4).1
          out d8 in
      (
        record {
          at_head = s1;
          head = head;
          ran_head = ran_head;
          head_fine = (head_checked head u head_fine).0;
          is_base = (head_checked head u head_fine).1;
          at_status = s2;
          status = status;
          ran_status = ran_status;
          status_fine = (status_checked status v status_fine).0;
          is_clean = (status_checked status v status_fine).1;
          at_read = s3;
          patch = patch;
          read = read;
          result = result;
          ran_apply = ran_apply;
          applies = fine_status result (guard-true _ w fine);
        },
        ok-injective root out last,
      )

  verified : (s : S) → (verify_managed_patch e s).0 ≡ ok true → IsVerified
  unfolding verify_managed_patch verify_patch
  verified s done =
      let (content, read, last) =
        returned (e.read_resource managed_llama_cpp_patch_name) _ s true done in
      record {
        before = s;
        content = content;
        read = read;
        pinned = eq_of_== _ _ (ok-injective _ true last);
      }

  -- What a check that returns has found.
  abbrev pub IsChecked : String → String → Type 0
  IsChecked path root =
      IsVerified
      × ((s : S) × ((e.resolve path s).0 ≡ ok root))
      × ((s : S) × ((e.is_dir root s).0 ≡ ok true))
      × AppliesTo root

  check_returns :
      (path root : String) (s : S)
      → (check_managed_patch e path s).0 ≡ ok root
      → IsChecked path root
  unfolding check_managed_patch
  check_returns path out s done =
      let (found, looked, d1) = returned (verify_managed_patch e) _ s out done in
      let s1 = (verify_managed_patch e s).1 in
      let (u, fine, d2) = returned (local (guard found)) _ s1 out d1 in
      let was : (verify_managed_patch e s).0 ≡ ok true = looked ∙ ap ok (guard-true found u fine) in
      let (root, resolved, d3) = returned (e.resolve path) _ s1 out d2 in
      let s2 = (e.resolve path s1).1 in
      let (there, seen, d4) = returned (e.is_dir root) _ s2 out d3 in
      let s3 = (e.is_dir root s2).1 in
      let (v, dir_fine, d5) = returned (local (guard there)) _ s3 out d4 in
      let (applies, same) = checkout_applies root s3 out d5 in
      subst (IsChecked path) same
        (verified s was, (s1, resolved), (s2, seen ∙ ap ok (guard-true there v dir_fine)), applies)

  export_stops :
      (output path : String)
      → (path == "") ≡ false
      → (s : S) (x : Error) → (check_managed_patch e path s).0 ≡ raise x
      → main e (llama_cpp_managed output (some path)) s
        ≡ (raise x, (check_managed_patch e path s).1)
  unfolding main check_base continue
  export_stops output path given s x bad =
      rw (given, continue_raise (check_managed_patch e path s) (λ root. pure tt) x bad) refl

  -- An export with a base checkout: either it raises what the check raises and has written nothing, or
  -- the packaged patch has the pinned digest and the checkout is a clean one of the base, to which git
  -- applies the patch.
  pub export_checks_first :
      (P : S → Type 0)
      → OnlyWrites e P
      → (output path : String) → (path == "") ≡ false
      → (s : S) → P s
      → let out = main e (llama_cpp_managed output (some path)) s in
        ((x : Error) × (out.0 ≡ raise x) × P out.1) ⊎ ((root : String) × IsChecked path root)
  export_checks_first P o output path given s now =
      elim (Result-cases (check_managed_patch e path s).0) [
        | inl (x, bad) ↦
            let stopped = export_stops output path given s x bad in
            inl (
              x,
              ap (λ out. out.0) stopped,
              subst (λ out. P out.1) (sym stopped) ((check-Keeps e P o path).keeps s now),
            )
        | inr (root, fine) ↦ inr (root, check_returns path root s fine)
      ]
