-- ===== src/Prelude/Replacing.antt =====
-- `str::replace` of Rust, for a pattern that is not empty, and its laws.
use Prim.Native.Char.{Char, code}
use Prim.Native.Nat.{compare, Ordering}
use Prim.Native.String.{◌++◌ as join}
use text.Mathlib.TextLemmas.{cons-append, nil-append, append-nil}
use torc_scheduler.Prelude.{
  ℕ, zero, suc, ◌-◌, String, ◌≡◌, refl, sym, ap, ◌∙◌, Bool, true, false, ◌&&◌, List, [], ◌∷◌, arith,
  if◌then◌else◌,
}
use torc_scheduler.Prelude.Splitting.{HasNone}

abbrev pub same_code : ℕ → ℕ → Bool
same_code a b = elim (compare a b) [ Ordering.eq ↦ true | _ ↦ false ]

-- The text begins with the pattern.
is_prefix : String → String → Bool
is_prefix String.[] s = true
is_prefix (String.◌∷◌ c p) String.[] = false
is_prefix (String.◌∷◌ c p) (String.◌∷◌ d s) = same_code (code c) (code d) && is_prefix p s

chars : String → ℕ
chars String.[] = 0
chars (String.◌∷◌ c s) = suc (chars s)

-- `skipped` characters of a match are still to be passed over.
replace_from : String → String → ℕ → String → String
replace_from pattern_text new skipped String.[] = ""
replace_from pattern_text new (suc skipped) (String.◌∷◌ c s) =
    replace_from pattern_text new skipped s
replace_from pattern_text new zero (String.◌∷◌ c s) =
    let matched = join new (replace_from pattern_text new (chars pattern_text - 1) s) in
    let kept = String.◌∷◌ c (replace_from pattern_text new zero s) in
    if is_prefix pattern_text (String.◌∷◌ c s) then matched else kept

-- `s.replace(pattern, new)`: the matches that do not overlap, from left to right.
unfoldable pub replace : String → String → String → String
unfolding replace_from is_prefix chars
replace pattern_text new s = replace_from pattern_text new 0 s

-- Texts with the same text between them.
abbrev pub join_with : String → List String → String
join_with between [] = ""
join_with between (piece ∷ []) = piece
join_with between (piece ∷ next ∷ pieces) =
    join piece (join between (join_with between (next ∷ pieces)))

abbrev pub AllLack : (ℕ → Bool) → List String → Type 0
AllLack p [] = Unit
AllLack p (piece ∷ pieces) = HasNone p piece × AllLack p pieces

same_code_refl : (a : ℕ) → same_code a a ≡ true
same_code_refl a = ground arith

is_prefix-append : (p s : String) → is_prefix p (join p s) ≡ true
unfolding is_prefix
is_prefix-append String.[] s = refl
is_prefix-append (String.◌∷◌ c p) s = rw (cons-append, same_code_refl) (is_prefix-append p s)

module _ (d : Char) (p new : String) where
  abbrev replaced : String → String
  replaced s = replace_from (String.◌∷◌ d p) new 0 s

  replace_from-skip :
      (q s : String) → replace_from (String.◌∷◌ d p) new (chars q) (join q s) ≡ replaced s
  unfolding replace_from chars
  replace_from-skip String.[] s = rw nil-append refl
  replace_from-skip (String.◌∷◌ c q) s = rw cons-append (replace_from-skip q s)

  is_prefix-match : (s : String) → is_prefix (String.◌∷◌ d p) (String.◌∷◌ d (join p s)) ≡ true
  unfolding is_prefix
  is_prefix-match s = rw same_code_refl (is_prefix-append p s)

  -- A match at the front.
  replaced-match : (s : String) → replaced (join (String.◌∷◌ d p) s) ≡ join new (replaced s)
  unfolding replace_from chars
  replaced-match s =
      rw (cons-append, is_prefix-match)
        (ap (join new)
          (ap (λ n. replace_from (String.◌∷◌ d p) new n (join p s)) last ∙ replace_from-skip p s))
    where
      last : suc (chars p) - 1 ≡ chars p
      last = omega arith

  -- A text without the pattern's first character stays.
  replaced-kept :
      (q s : String) → HasNone (same_code (code d)) q → replaced (join q s) ≡ join q (replaced s)
  unfolding replace_from is_prefix
  replaced-kept String.[] s h = ap replaced (nil-append s) ∙ sym (nil-append (replaced s))
  replaced-kept (String.◌∷◌ c q) s h =
      rw (cons-append c q s, h.0)
        (ap (String.◌∷◌ c) (replaced-kept q s h.1) ∙ sym (cons-append c q (replaced s)))

  replace_from-join_with :
      (pieces : List String)
      → AllLack (same_code (code d)) pieces
      → replaced (join_with (String.◌∷◌ d p) pieces) ≡ join_with new pieces
  unfolding replace_from
  replace_from-join_with [] h = refl
  replace_from-join_with (piece ∷ []) h =
      ap replaced (sym (append-nil piece)) ∙ replaced-kept piece "" h.0 ∙ append-nil piece
  replace_from-join_with (piece ∷ next ∷ pieces) h =
      replaced-kept piece _ h.0
      ∙ ap (join piece) (
          replaced-match (join_with (String.◌∷◌ d p) (next ∷ pieces))
          ∙ ap (join new) (replace_from-join_with (next ∷ pieces) h.1))

-- Where the pattern stands between pieces that lack its first character, the new text stands
-- afterwards, and the pieces are left as they are.
pub replace-join_with :
    (d : Char) (p new : String) (pieces : List String)
    → AllLack (same_code (code d)) pieces
    → replace (String.◌∷◌ d p) new (join_with (String.◌∷◌ d p) pieces) ≡ join_with new pieces
unfolding replace
replace-join_with d p new pieces h = replace_from-join_with d p new pieces h
