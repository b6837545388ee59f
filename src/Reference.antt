-- ===== src/Reference.antt =====
-- src/statebraid/reference.py: the command line that exports the patches.
pub mod Safety
pub mod Checked
use statebraid.Prelude.{
  ℕ, Bool, true, false, Option, none, some, String, string_hashable, ◌==◌, if◌then◌else◌,
}
use statebraid.Prelude.Exec.{Exec, pure, continue, ◌>>=◌, ◌>>◌}
use statebraid.Integrations.{Environment}
use statebraid.Integrations.Mlx.{write_reference_patch}
use statebraid.Integrations.LlamaCppManaged.{check_managed_patch, write_managed_patch}

-- The arguments that the parser makes.
pub data Command : Type 0 where
  mlx : String → Command
  llama_cpp_managed : String → Option String → Command

module _ {S : Type 0} (e : Environment S) where
  -- `if args.check_base: check_managed_patch(args.check_base)`.
  unfoldable pub check_base : Option String → Exec S (Unit {0})
  unfolding continue
  check_base none = pure tt
  check_base (some path) =
      if path == "" then pure tt else (check_managed_patch e path >>= λ root. pure tt)

  -- `main`: the exit code, or what it raises. What it prints is left out.
  unfoldable pub main : Command → Exec S ℕ
  unfolding continue check_base
  main (mlx output) = do destination ← write_reference_patch e output; pure 0
  main (llama_cpp_managed output checkout) = do
    check_base checkout
    destination ← write_managed_patch e output
    pure 0
