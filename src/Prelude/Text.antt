-- ===== src/Prelude/Text.antt =====
-- Texts: the native `String`, with the tests that Rust's `str` methods make.
use Prim.Native.Char.{Char, code}
use Prim.Native.Nat.{ℕ}
use Prim.Native.String.{String, ◌++◌}
use mathlib.Core.Bool.{Bool, true, false, not}
use mathlib.Core.List.{List, [], ◌∷◌}
use text.Mathlib.Text.{◌==◌ as str_eq}
use torc_scheduler.Prelude.Lists.{filter_by}
use torc_scheduler.Prelude.Tests.{if◌then◌else◌}

infix 50 ◌==◌
abbrev pub ◌==◌ : String → String → Bool
a == b = str_eq a b

-- `is_empty()`; the source's `len() > 0` is its negation.
abbrev pub is_empty : String → Bool
is_empty String.[] = true
is_empty (String.◌∷◌ c s) = false

-- The first piece of a split grows by one character.
abbrev pub prepend : Char → List String → List String
prepend c [] = String.◌∷◌ c "" ∷ []
prepend c (piece ∷ pieces) = String.◌∷◌ c piece ∷ pieces

-- `s.split(is_separator)`: one piece more than there are separators, some of them empty.
unfoldable pub split : (ℕ → Bool) → String → List String
split is_separator String.[] = "" ∷ []
split is_separator (String.◌∷◌ c s) =
    let pieces = split is_separator s in
    if is_separator (code c) then "" ∷ pieces else prepend c pieces

-- `s.split(is_separator).filter(|s| !s.is_empty()).collect()`
unfoldable pub split_nonempty : (ℕ → Bool) → String → List String
unfolding split filter_by
split_nonempty is_separator s = filter_by (λ piece. not (is_empty piece)) (split is_separator s)

-- `format!`: the pieces of the format and the values between them, one after the other.
abbrev pub concat : List String → String
concat [] = ""
concat (piece ∷ pieces) = piece ++ concat pieces
