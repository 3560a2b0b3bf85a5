-- ===== src/Prelude/Panic.antt =====
-- Computations that may panic and have no other effect: `none` is the panic.
use torc_scheduler.Prelude.{◌≡◌, refl, Option, none, some, List, [], ◌∷◌}

infixl 5 ◌>>=◌
abbrev pub ◌>>=◌ : {A B : Type 0} → Option A → (A → Option B) → Option B
none >>= f = none
some a >>= f = f a

abbrev pub pure : {A : Type 0} → A → Option A
pure a = some a

-- `for x in xs { result.push(f(x)) }`
unfoldable pub for_all : {A B : Type 0} → (A → Option B) → List A → Option (List B)
for_all f [] = some []
for_all f (x ∷ xs) = do y ← f x; ys ← for_all f xs; pure (y ∷ ys)

-- The next step of a computation whose first step goes well.
pub >>=-some :
    {A B : Type 0} (m : Option A) (f : A → Option B) (a : A) (r : Option B)
    → m ≡ some a
    → f a ≡ r
    → (m >>= f) ≡ r
>>=-some m f a r e h = rw e h

-- Every element read is the list read.
abbrev pub AllRead : {A B : Type 0} → (A → Option B) → List A → List B → Type 0
AllRead f [] [] = Unit
AllRead f [] (y ∷ ys) = ⊥
AllRead f (x ∷ xs) [] = ⊥
AllRead f (x ∷ xs) (y ∷ ys) = (f x ≡ some y) × AllRead f xs ys

pub for_all-AllRead :
    {A B : Type 0} (f : A → Option B) (xs : List A) (ys : List B)
    → AllRead f xs ys
    → for_all f xs ≡ some ys
unfolding for_all
for_all-AllRead f [] [] h = refl
for_all-AllRead f [] (y ∷ ys) h = absurd h
for_all-AllRead f (x ∷ xs) [] h = absurd h
for_all-AllRead f (x ∷ xs) (y ∷ ys) h = rw (h.0, for_all-AllRead f xs ys h.1) refl
