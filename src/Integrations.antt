-- ===== src/Integrations.antt =====
-- src/statebraid/integrations: what the two packages share. A package has a patch as a resource; its
-- digest is pinned in the source.
pub mod Mlx
pub mod LlamaCppManaged
use statebraid.Prelude.{
  ℕ, ℤ, Bool, true, false, ◌&&◌, List, [], ◌∷◌, Option, String, string_hashable, ◌==◌, ltb, map,
  if◌then◌else◌,
}
use statebraid.Prelude.Result.{Result, ok, raise, runtime_error}
use statebraid.Prelude.Exec.{Exec, pure, local, continue, ◌>>=◌, ◌>>◌}
use statebraid.Prelude.Texts.{is_space}

abbrev pub Bytes : Type 0
Bytes = List ℕ

-- What `subprocess.run` returns; `stderr` is only printed.
pub record CompletedProcess : Type 0 where
  pub returncode : ℤ
  pub stdout : Bytes

-- The resources, files, digests and processes that the packages use. `git root args input` runs
-- `git -C root args`.
pub record Environment (S : Type 0) : Type 0 where
  pub read_resource : String → Exec S Bytes
  pub sha256 : Bytes → String
  pub write_bytes : String → Bytes → Exec S (Unit {0})
  pub resolve : String → Exec S String
  pub is_dir : String → Exec S Bool
  pub git : String → List String → Option Bytes → Exec S CompletedProcess

-- `bytes.decode("ascii", errors="replace")`, as code points.
unfoldable pub decode_ascii : Bytes → List ℕ
decode_ascii bytes = map (λ b. if ltb b 128 then b else 65533) bytes

unfoldable pub strip_left : List ℕ → List ℕ
strip_left [] = []
strip_left (c ∷ s) = let rest = strip_left s in if is_space c then rest else c ∷ s

unfoldable pub keep_unless_space : ℕ → List ℕ → List ℕ
keep_unless_space c [] = if is_space c then [] else c ∷ []
keep_unless_space c (d ∷ s) = c ∷ d ∷ s

unfoldable pub strip_right : List ℕ → List ℕ
unfolding keep_unless_space
strip_right [] = []
strip_right (c ∷ s) = keep_unless_space c (strip_right s)

-- `text.strip()`.
unfoldable pub strip : List ℕ → List ℕ
unfolding strip_left strip_right
strip text = strip_right (strip_left text)

module _ {S : Type 0} (e : Environment S) where
  -- The bytes of a patch, if they have the pinned digest.
  unfoldable pub require_digest : String → Bytes → Result Bytes
  require_digest pinned content =
      if e.sha256 content == pinned then ok content else raise runtime_error

  unfoldable pub write_patch : String → String → String → Exec S String
  unfolding continue require_digest
  write_patch patch_name pinned destination = do
    content ← e.read_resource patch_name
    checked ← local (require_digest pinned content)
    e.write_bytes destination checked
    pure destination

  unfoldable pub verify_patch : String → String → Exec S Bool
  unfolding continue
  verify_patch patch_name pinned = do
    content ← e.read_resource patch_name
    pure (e.sha256 content == pinned)
