-- ===== src/Prelude/Texts/Sorted.antt =====
-- `sorted` on strings.
use Prim.Native.String.{String}
use mathlib.Core.List.{List, [], ◌∷◌}
use statebraid.Prelude.Tests.{if◌then◌else◌}
use statebraid.Prelude.Texts.{text_leb}

-- `sorted(xs)`, an insertion sort.
unfoldable pub insert_text : String → List String → List String
insert_text x [] = x ∷ []
insert_text x (y ∷ ys) =
    let rest = insert_text x ys in if text_leb x y then x ∷ y ∷ ys else y ∷ rest

unfoldable pub sort_texts : List String → List String
unfolding insert_text
sort_texts [] = []
sort_texts (x ∷ xs) = insert_text x (sort_texts xs)
