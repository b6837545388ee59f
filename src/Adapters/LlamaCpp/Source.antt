-- ===== src/Adapters/LlamaCpp/Source.antt =====
-- src/statebraid/adapters/llama_cpp.py: the source commit of a running server. Texts are lists of code
-- points here.
use Prim.Native.Char.{code}
use Prim.Native.String.{[] as empty, ◌∷◌ as prepend}
use statebraid.Prelude.{
  ℕ, ◌+◌, Bool, false, ◌&&◌, ◌||◌, List, [], ◌∷◌, ◌++◌, Option, none, some, String, nat_hashable,
  list_hashable, ◌==◌, ltb, leb, length, take, if◌then◌else◌,
}

unfoldable pub codes : String → List ℕ
codes empty = []
codes (prepend c s) = code c ∷ codes s

abbrev pub llama_cpp_reference_sha : String
llama_cpp_reference_sha = "465e49b9cea78a68b9c244ffb48d0ee24a82873d"

abbrev within : ℕ → ℕ → ℕ → Bool
within low high n = leb low n && leb n high

-- `str.lower` on the letters that the pattern can read.
unfoldable pub lower : List ℕ → List ℕ
lower [] = []
lower (c ∷ cs) = (if within b'A' b'Z' c then c + 32 else c) ∷ lower cs

unfoldable pub is_hex : ℕ → Bool
is_hex c = within b'0' b'9' c || within b'a' b'f' c

-- The search of `_BUILD_COMMIT_RE` is a walk with the hexadecimal digits since the last place where a
-- match can begin, if there is one, and the last match.
abbrev pub Walk : Type 0
Walk = Option (List ℕ) × Option (List ℕ)

-- `[- ]` begins a match.
unfoldable pub restart : ℕ → Option (List ℕ)
restart c = if c == b'-' || c == b' ' then some [] else none

unfoldable pub advance : ℕ → Walk → Walk
unfolding restart is_hex
advance c (none, last) = (restart c, last)
advance c (some run, last) =
    if is_hex c
    then (if ltb (length run) 40 then some (run ++ c ∷ []) else none, last)
    else if (c == b' ' || c == b')') && leb 7 (length run)
    then (none, some run)
    else (restart c, last)

-- At the end of the text, or before a newline that ends it.
unfoldable pub finish : Walk → Option (List ℕ)
finish (none, last) = last
finish (some run, last) = if leb 7 (length run) then some run else last

unfoldable pub walk : Walk → List ℕ → Option (List ℕ)
unfolding advance finish
walk w [] = finish w
walk w (c ∷ []) = if c == 10 then finish w else finish (advance c w)
walk w (c ∷ d ∷ cs) = walk (advance c w) (d ∷ cs)

-- The last match of `findall`; an empty `build_info` has none.
unfoldable pub llama_cpp_source_commit : String → Option (List ℕ)
unfolding codes lower walk
llama_cpp_source_commit build_info = walk (some [], none) (lower (codes build_info))

abbrev pub begins_with : List ℕ → List ℕ → Bool
begins_with whole part = take (length part) whole == part

unfoldable pub source_match : String → String → Bool
unfolding llama_cpp_source_commit
source_match sha build_info = elim (llama_cpp_source_commit build_info) [
  | none ↦ false
  | some commit ↦ begins_with (codes sha) commit || begins_with commit (codes sha)
]

unfoldable pub llama_cpp_reference_source_match : String → Bool
unfolding source_match
llama_cpp_reference_source_match build_info = source_match llama_cpp_reference_sha build_info
