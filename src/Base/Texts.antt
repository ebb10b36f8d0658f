-- ===== src/Base/Texts.antt =====
-- Texts as lists of UTF-16 code units (code points, for the texts that the program writes itself).
use Prim.Native.Nat.{ℕ}
use Prim.Native.Char.{code}
use Prim.Native.String.{String}
use mathlib.Core.Bool.{Bool, true, false, ◌&&◌, ◌||◌}
use mathlib.Core.List.{List, [], ◌∷◌}
use mathlib.Core.Option.{Option, none, some}
use finskool_monorepo.Base.Tests.{◌==◌}

abbrev pub Text : Type 0
Text = List ℕ

abbrev pub text : String → Text
text String.[] = []
text (String.◌∷◌ c s) = code c ∷ text s

-- `a === b` on texts.
unfoldable pub text_eq : Text → Text → Bool
text_eq [] [] = true
text_eq [] (_ ∷ _) = false
text_eq (_ ∷ _) [] = false
text_eq (x ∷ xs) (y ∷ ys) = x == y && text_eq xs ys

unfoldable pub starts_with : Text → Text → Bool
starts_with t [] = true
starts_with [] (_ ∷ _) = false
starts_with (x ∷ xs) (p ∷ ps) = x == p && starts_with xs ps

-- `t.includes(p)`
unfoldable pub includes_text : Text → Text → Bool
includes_text [] p = starts_with [] p
includes_text (x ∷ xs) p = starts_with (x ∷ xs) p || includes_text xs p

-- `body || null`: an empty or missing text is stored as null.
abbrev pub non_empty : Option Text → Option Text
non_empty none = none
non_empty (some []) = none
non_empty (some (c ∷ cs)) = some (c ∷ cs)
