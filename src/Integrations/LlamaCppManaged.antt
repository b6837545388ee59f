-- ===== src/Integrations/LlamaCppManaged.antt =====
-- src/statebraid/integrations/llama_cpp_managed/__init__.py.
use statebraid.Prelude.{
  pos, int_hashable, nat_hashable, list_hashable, Bool, true, false, ◌&&◌, [], ◌∷◌, none, some,
  String, ◌==◌, if◌then◌else◌,
}
use statebraid.Prelude.Result.{Result, ok, raise, runtime_error}
use statebraid.Prelude.Exec.{Exec, pure, local, continue, ◌>>=◌, ◌>>◌}
use statebraid.Adapters.LlamaCpp.Source.{codes}
use statebraid.Integrations.{
  Environment, Bytes, CompletedProcess, write_patch, verify_patch, decode_ascii, strip,
}

abbrev pub managed_llama_cpp_base_sha : String
managed_llama_cpp_base_sha = "465e49b9cea78a68b9c244ffb48d0ee24a82873d"

abbrev pub managed_llama_cpp_patch_name : String
managed_llama_cpp_patch_name = "llama.cpp-465e49b9-statebraid-managed-m1.patch"

abbrev pub managed_llama_cpp_patch_sha256 : String
managed_llama_cpp_patch_sha256 = "36eb956e8d38743068f59d041a9b7487543a41726d11b8fef0ce1d4b09c1f9a9"

-- What a guard asks for.
abbrev pub guard : Bool → Result (Unit {0})
guard fine = if fine then ok tt else raise runtime_error

abbrev pub succeeded : CompletedProcess → Bool
succeeded p = p.returncode == pos 0

abbrev pub is_empty : Bytes → Bool
is_empty [] = true
is_empty (_ ∷ _) = false

-- The guards on the answers of git.
unfoldable pub check_head : CompletedProcess → Result (Unit {0})
unfolding codes decode_ascii strip
check_head head =
    guard (succeeded head && strip (decode_ascii head.stdout) == codes managed_llama_cpp_base_sha)

unfoldable pub check_status : CompletedProcess → Result (Unit {0})
check_status status = guard (succeeded status && is_empty status.stdout)

module _ {S : Type 0} (e : Environment S) where
  unfoldable pub managed_patch_bytes : Exec S Bytes
  managed_patch_bytes = e.read_resource managed_llama_cpp_patch_name

  unfoldable pub verify_managed_patch : Exec S Bool
  unfolding verify_patch
  verify_managed_patch = verify_patch e managed_llama_cpp_patch_name managed_llama_cpp_patch_sha256

  unfoldable pub write_managed_patch : String → Exec S String
  unfolding write_patch
  write_managed_patch path =
      write_patch e managed_llama_cpp_patch_name managed_llama_cpp_patch_sha256 path

  -- The part of the check that runs git in the resolved checkout.
  unfoldable pub check_checkout : String → Exec S String
  unfolding continue check_head check_status managed_patch_bytes
  check_checkout root = do
    top ← e.git root ("rev-parse" ∷ "--show-toplevel" ∷ []) none
    local (guard (succeeded top))
    head ← e.git root ("rev-parse" ∷ "HEAD" ∷ []) none
    local (check_head head)
    status ← e.git root ("status" ∷ "--porcelain" ∷ []) none
    local (check_status status)
    patch ← managed_patch_bytes
    result ← e.git root ("apply" ∷ "--check" ∷ "--whitespace=nowarn" ∷ "-" ∷ []) (some patch)
    local (guard (succeeded result))
    pure root

  unfoldable pub check_managed_patch : String → Exec S String
  unfolding continue verify_managed_patch check_checkout
  check_managed_patch checkout = do
    verified ← verify_managed_patch
    local (guard verified)
    root ← e.resolve checkout
    found ← e.is_dir root
    local (guard found)
    check_checkout root
