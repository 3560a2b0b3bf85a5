-- ===== src/HashMap/Keyed.antt =====
-- Maps whose entries are stored under their own names, each name once.
use torc_scheduler.Prelude.{
  String, ◌≡◌, refl, ◌↔◌, none, some, [], ◌∷◌, inl, inr, arith, eq_iff, Member,
}
use torc_scheduler.HashMap.{
  HashMap, get, insert, remove, modify, values, get-insert, get-remove, get-modify,
}

module _ {V : Type 0} (name : V → String) where
  -- Every value stands under its name, and no key stands twice.
  abbrev pub IsKeyed : HashMap V → Type 0
  IsKeyed [] = Unit
  IsKeyed ((k, v) ∷ m) = (name v ≡ k) × (get k m ≡ none) × IsKeyed m

  pub get-name : (k : String) (v : V) (m : HashMap V) → IsKeyed m → get k m ≡ some v → name v ≡ k
  unfolding get
  get-name k v [] h e = cc
  get-name k v ((i, w) ∷ m) h e = ground (arith, eq_iff i k, get-name k v m h.2)

  pub insert-IsKeyed : (v : V) (m : HashMap V) → IsKeyed m → IsKeyed (insert (name v) v m)
  unfolding insert
  insert-IsKeyed v [] h = (refl, (unfold get in refl), tt)
  insert-IsKeyed v ((i, w) ∷ m) h = ground (
    arith,
    eq_iff i (name v),
    eq_iff (name v) i,
    insert-IsKeyed v m h.2,
    get-insert (name v) i v m,
  )

  pub remove-IsKeyed : (k : String) (m : HashMap V) → IsKeyed m → IsKeyed (remove k m)
  unfolding remove
  remove-IsKeyed k [] h = tt
  remove-IsKeyed k ((i, w) ∷ m) h = ground (arith, remove-IsKeyed k m h.2, get-remove k i m)

  pub modify-IsKeyed :
      (k : String) (f : V → V) (m : HashMap V)
      → ((v : V) → name (f v) ≡ name v)
      → IsKeyed m
      → IsKeyed (modify k f m)
  unfolding modify
  modify-IsKeyed k f [] keep h = tt
  modify-IsKeyed k f ((i, w) ∷ m) keep h =
      ground
        (arith, eq_iff k i, eq_iff i k, keep w, modify-IsKeyed k f m keep h.2, get-modify k i f m)

  member-values-get :
      (v : V) (m : HashMap V) → IsKeyed m → Member v (values m) → get (name v) m ≡ some v
  unfolding get values
  member-values-get v [] h e = absurd e
  member-values-get v ((i, w) ∷ m) h (inl e) = ground (arith, eq_iff i (name v))
  member-values-get v ((i, w) ∷ m) h (inr e) =
      ground (arith, eq_iff i (name v), member-values-get v m h.2 e)

  get-member_values : (k : String) (v : V) (m : HashMap V) → get k m ≡ some v → Member v (values m)
  unfolding get values
  get-member_values k v [] e = cc
  get-member_values k v ((i, w) ∷ m) e = ground (arith, get-member_values k v m)

  -- The values of a keyed map are the values that a lookup of their names finds.
  pub member-values :
      (v : V) (m : HashMap V) → IsKeyed m → Member v (values m) ↔ (get (name v) m ≡ some v)
  member-values v m h = (member-values-get v m h, get-member_values (name v) v m)
