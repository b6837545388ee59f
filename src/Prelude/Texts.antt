-- ===== src/Prelude/Texts.antt =====
-- Python's strings: their order, which is that of the code points, and blank ones.
pub mod Sorted
use Prim.Native.Char.{Char, code}
use Prim.Native.Nat.{ℕ}
use Prim.Native.String.{String, [], ◌∷◌}
use mathlib.Core.Bool.{Bool, true, false, ◌&&◌, ◌||◌}
use statebraid.Prelude.Hash.{nat_hashable, ◌==◌}
use statebraid.Prelude.Tests.{leb, ltb, if◌then◌else◌}

-- `s <= t`.
unfoldable pub text_leb : String → String → Bool
text_leb [] t = true
text_leb (c ∷ s) [] = false
text_leb (c ∷ s) (d ∷ t) =
    let rest = text_leb s t in if code c == code d then rest else ltb (code c) (code d)

-- The code points that `str.strip` takes off.
unfoldable pub is_space : ℕ → Bool
is_space n =
    (leb 9 n && leb n 13)
    || (leb 28 n && leb n 32)
    || (leb 8192 n && leb n 8202)
    || n == 133
    || n == 160
    || n == 5760
    || n == 8232
    || n == 8233
    || n == 8239
    || n == 8287
    || n == 12288

-- `not s.strip()`.
unfoldable pub is_blank : String → Bool
unfolding is_space
is_blank [] = true
is_blank (c ∷ s) = is_space (code c) && is_blank s
