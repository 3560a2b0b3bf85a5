-- ===== src/Prelude/Splitting.antt =====
-- Laws of splitting a text at separators, `str::split` with the empty pieces dropped.
use Prim.Native.Char.{Char, code}
use Prim.Native.String.{◌++◌ as join}
use text.Mathlib.TextLemmas.{cons-append, nil-append}
use torc_scheduler.Prelude.{
  ℕ, String, ◌≡◌, refl, sym, ap, subst, ◌∙◌, Bool, true, false, not, List, [], ◌∷◌, ◌++◌, arith,
  is_empty, filter_by, split, split_nonempty, prepend, Member, member-filter_by, inl, inr,
  Bool-cases,
}

-- No character of the text is a separator.
abbrev pub HasNone : (ℕ → Bool) → String → Type 0
HasNone p String.[] = Unit
HasNone p (String.◌∷◌ c s) = (p (code c) ≡ false) × HasNone p s

not-true : (b : Bool) → not b ≡ true → b ≡ false
not-true b h = ground arith

module _ (p : ℕ → Bool) where
  split-eq-cons : (s : String) → (x : String) × (xs : List String) × (split p s ≡ x ∷ xs)
  unfolding split
  split-eq-cons String.[] = ("", [], refl)
  split-eq-cons (String.◌∷◌ c s) = elim (Bool-cases (p (code c))) [
    | inl cut ↦ ("", split p s, rw cut refl)
    | inr kept ↦ let (x, xs, e) = split-eq-cons s in (String.◌∷◌ c x, xs, rw (kept, e) refl)
  ]

  prepend-append :
      (c : Char) (s : String) (ys : List String)
      → prepend c (split p s ++ ys) ≡ prepend c (split p s) ++ ys
  prepend-append c s ys = let (x, xs, e) = split-eq-cons s in rw e refl

  -- A separator between two texts splits them apart.
  pub split-append :
      (c : Char) (s t : String)
      → p (code c) ≡ true
      → split p (join s (String.◌∷◌ c t)) ≡ split p s ++ split p t
  unfolding split
  split-append c String.[] t h = rw (nil-append, h) refl
  split-append c (String.◌∷◌ d s) t h = elim (Bool-cases (p (code d))) [
    | inl cut ↦ rw (cons-append, cut) (ap (λ l. "" ∷ l) (split-append c s t h))
    | inr kept ↦
        rw (cons-append, kept)
          (ap (prepend d) (split-append c s t h) ∙ prepend-append d s (split p t))
  ]

  -- A text without separators is one piece.
  pub split_none : (s : String) → HasNone p s → split p s ≡ s ∷ []
  unfolding split
  split_none String.[] h = refl
  split_none (String.◌∷◌ c s) h = rw (h.0, split_none s h.1) refl

filter_by-append :
    {A : Type 0} (q : A → Bool) (xs ys : List A)
    → filter_by q (xs ++ ys) ≡ filter_by q xs ++ filter_by q ys
unfolding filter_by
filter_by-append q [] ys = refl
filter_by-append q (x ∷ xs) ys = elim (Bool-cases (q x)) [
  | inl e ↦ rw e (ap (λ l. x ∷ l) (filter_by-append q xs ys))
  | inr e ↦ rw e (filter_by-append q xs ys)
]

module _ (p : ℕ → Bool) where
  -- The same without the empty pieces.
  pub split_nonempty-append :
      (c : Char) (s t : String)
      → p (code c) ≡ true
      → split_nonempty p (join s (String.◌∷◌ c t)) ≡ split_nonempty p s ++ split_nonempty p t
  unfolding split_nonempty
  split_nonempty-append c s t h =
      ap (filter_by _) (split-append p c s t h) ∙ filter_by-append _ (split p s) (split p t)

  pub split_nonempty_none :
      (s : String) → HasNone p s → is_empty s ≡ false → split_nonempty p s ≡ s ∷ []
  unfolding split_nonempty filter_by
  split_nonempty_none s h e = ap (filter_by _) (split_none p s h) ∙ rw e refl

  split-HasNone : (s piece : String) → Member piece (split p s) → HasNone p piece
  unfolding split
  split-HasNone String.[] piece m = elim m [
    | inl e ↦ subst (HasNone p) (sym e) tt
    | inr m' ↦ absurd m'
  ]
  split-HasNone (String.◌∷◌ c s) piece m = elim (Bool-cases (p (code c))) [
    | inl cut ↦
        let at_cut : Member piece ("" ∷ split p s) = rw cut at m in
        elim at_cut [ inl e ↦ subst (HasNone p) (sym e) tt | inr m' ↦ split-HasNone s piece m' ]
    | inr kept ↦
        let (x, xs, e) = split-eq-cons p s in
        let grown : Member piece (prepend c (x ∷ xs)) = rw (kept, e) at m in
        elim grown [
          | inl q ↦
              subst (HasNone p) (sym q)
                (kept, split-HasNone s x (subst (Member x) (sym e) (inl refl)))
          | inr m' ↦ split-HasNone s piece (subst (Member piece) (sym e) (inr m'))
        ]
  ]

  -- Every piece is a non-empty text without separators.
  pub split_nonempty_pieces :
      (s piece : String)
      → Member piece (split_nonempty p s)
      → (is_empty piece ≡ false) × HasNone p piece
  unfolding split_nonempty
  split_nonempty_pieces s piece m =
      let (listed, kept) = (member-filter_by piece _ (split p s)).0 m in
      (not-true (is_empty piece) kept, split-HasNone s piece listed)
