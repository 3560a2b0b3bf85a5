-- ===== src/Scheduler/Parameters.antt =====
-- The docker parameters that src/scheduler/scheduler_impl.rs takes out of a task's text.
use Prim.Native.String.{◌++◌ as join}
use Prim.Native.Char.{Char}
use text.Mathlib.TextLemmas.{cons-append, nil-append, append-nil, append_assoc}
use torc_scheduler.Mesos.{Parameter}
use torc_scheduler.Prelude.{
  ◌%◌, String, ◌≡◌, refl, sym, ap, ◌∙◌, ◌⊎◌, ◌↔◌, inl, inr, false, none, some, List, [], ◌∷◌, ◌++◌,
  arith, length, length-append, if◌then◌else◌, is_empty, split_nonempty, concat, ◌==◌, Option-cases,
}
use torc_scheduler.Prelude.Splitting.{HasNone, split_nonempty-append, split_nonempty_none}
use torc_scheduler.Records.{Task}
use torc_scheduler.Scheduler.Container.{
  pair_up, parameters_for, all_parameters, is_parameter_separator,
}

-- The pieces that a list of parameters is made of.
abbrev pub flat : List Parameter → List String
flat [] = []
flat (q ∷ qs) = q.key ∷ q.value ∷ flat qs

flat-append : (ps qs : List Parameter) → flat (ps ++ qs) ≡ flat ps ++ flat qs
flat-append [] qs = refl
flat-append (p ∷ ps) qs = ap (λ l. p.key ∷ p.value ∷ l) (flat-append ps qs)

flat-pair_up :
    (pieces : List String) (qs : List Parameter) → pair_up pieces ≡ some qs → flat qs ≡ pieces
unfolding pair_up
flat-pair_up [] qs e = cc
flat-pair_up (key ∷ []) qs e = cc
flat-pair_up (key ∷ value ∷ []) qs e = ground arith
flat-pair_up (key ∷ value ∷ piece ∷ pieces) qs e = elim (Option-cases (pair_up (piece ∷ pieces))) [
  | inl fails ↦ let never : none ≡ some qs = rw (fails, pair_up) at e in cc
  | inr (rest, made) ↦
      let whole : some (record { key = key; value = value } ∷ rest) ≡ some qs =
        rw (made, pair_up) at e in
      let same : record { key = key; value = value } ∷ rest ≡ qs = cc in
      ap flat (sym same) ∙ ap (λ l. key ∷ value ∷ l) (flat-pair_up (piece ∷ pieces) rest made)
]

pub pair_up-flat : (q : Parameter) (qs : List Parameter) → pair_up (flat (q ∷ qs)) ≡ some (q ∷ qs)
unfolding pair_up
pair_up-flat q [] = refl
pair_up-flat q (r ∷ qs) = rw (pair_up-flat r qs, pair_up) refl

pair_up-step :
    (key value piece : String) (pieces : List String)
    → (pair_up (key ∷ value ∷ piece ∷ pieces) ≡ none) ↔ (pair_up (piece ∷ pieces) ≡ none)
unfolding pair_up
pair_up-step key value piece pieces = elim (Option-cases (pair_up (piece ∷ pieces))) [
  | inl fails ↦ (λ _. fails, λ _. rw (fails, pair_up) refl)
  | inr (rest, made) ↦ (
    λ e.
        let never : some (record { key = key; value = value } ∷ rest) ≡ none =
          rw (made, pair_up) at e in
        cc,
    λ e. let never : none ≡ some rest = sym e ∙ made in cc,
  )
]

-- The loop that pairs the pieces panics exactly if there is no piece or their number is odd.
pub pair_up_panics_iff :
    (pieces : List String) → (pair_up pieces ≡ none) ↔ ((pieces ≡ []) ⊎ (length pieces % 2 ≡ 1))
unfolding pair_up
pair_up_panics_iff [] = (λ _. inl refl, λ _. refl)
pair_up_panics_iff (key ∷ []) = (λ _. inr refl, λ _. refl)
pair_up_panics_iff (key ∷ value ∷ []) = (λ e. cc, λ h. elim h [ inl e ↦ cc | inr e ↦ cc ])
pair_up_panics_iff (key ∷ value ∷ piece ∷ pieces) =
    let ih = pair_up_panics_iff (piece ∷ pieces) in
    let step = pair_up-step key value piece pieces in
    (
      λ e. elim (ih.0 (step.0 e)) [ inl nothing ↦ cc | inr odd ↦ inr (omega arith) ],
      λ h. elim h [ inl nothing ↦ cc | inr odd ↦ step.1 (ih.1 (inr (omega arith))) ],
    )

one_char : (c : Char) (s : String) → join (String.◌∷◌ c "") s ≡ String.◌∷◌ c s
one_char c s = cons-append c "" s ∙ ap (String.◌∷◌ c) (nil-append s)

-- The text that passes a network on, taken apart at its first and last separators.
net_text : (s : String) → join " --net=" s ≡ String.◌∷◌ " " (join "--net" (String.◌∷◌ "=" s))
net_text s =
    append_assoc " " "--net=" s
    ∙ one_char " " (join "--net=" s)
    ∙ ap (String.◌∷◌ " ") (append_assoc "--net" "=" s ∙ ap (join "--net") (one_char "=" s))

pieces_of : String → List String
pieces_of = split_nonempty is_parameter_separator

net_pieces : split_nonempty is_parameter_separator "--net" ≡ "net" ∷ []
unfolding split_nonempty
net_pieces = refl

pieces_of_net :
    (ps network : String)
    → pieces_of (concat (ps ∷ " --net=" ∷ network ∷ [])) ≡ pieces_of ps ++ "net" ∷ pieces_of network
unfolding pieces_of
pieces_of_net ps network =
    ap (λ s. pieces_of (join ps s)) (ap (join " --net=") (append-nil network) ∙ net_text network)
    ∙ split_nonempty-append is_parameter_separator " " ps (join "--net" (String.◌∷◌ "=" network))
        refl
    ∙ ap (λ l. pieces_of ps ++ l)
        (split_nonempty-append is_parameter_separator "=" "--net" network refl
          ∙ ap (λ l. l ++ pieces_of network) net_pieces)

-- A text is empty or its pieces are paired: either way they are the flat parameters.
parsed_pieces :
    (ps : String) (qs : List Parameter) → parameters_for ps ≡ some qs → pieces_of ps ≡ flat qs
unfolding parameters_for pieces_of split_nonempty
parsed_pieces String.[] qs e = let same : [] ≡ qs = cc in ap flat same
parsed_pieces (String.◌∷◌ c s) qs e = sym (flat-pair_up _ qs e)

is_empty-net : (ps s : String) → is_empty (join ps (join " --net=" s)) ≡ false
is_empty-net String.[] s = ap is_empty (nil-append (join " --net=" s) ∙ net_text s)
is_empty-net (String.◌∷◌ c ps) s = ap is_empty (cons-append c ps (join " --net=" s))

all_parameters_text :
    (task : Task)
    → (task.network_type == "host") ≡ false
    → (task.network_type == "none") ≡ false
    → all_parameters task ≡ concat (task.parameters ∷ " --net=" ∷ task.network_type ∷ [])
unfolding all_parameters
all_parameters_text task not_host not_none = rw (not_host, not_none) refl

parameters_for-net :
    (ps network : String)
    → parameters_for (concat (ps ∷ " --net=" ∷ network ∷ []))
      ≡ pair_up (pieces_of ps ++ "net" ∷ pieces_of network)
unfolding parameters_for pieces_of
parameters_for-net ps network =
    let text = concat (ps ∷ " --net=" ∷ network ∷ []) in
    ap (λ b. if b then some [] else pair_up (pieces_of text)) (is_empty-net ps (join network ""))
    ∙ ap pair_up (pieces_of_net ps network)

-- The network is passed on as a parameter if it is neither "host" nor "none".
all_parameters_net :
    (task : Task)
    → (task.network_type == "host") ≡ false
    → (task.network_type == "none") ≡ false
    → parameters_for (all_parameters task)
      ≡ pair_up (pieces_of task.parameters ++ "net" ∷ pieces_of task.network_type)
all_parameters_net task not_host not_none =
    ap parameters_for (all_parameters_text task not_host not_none)
    ∙ parameters_for-net task.parameters task.network_type

pair_up-snoc :
    (qs : List Parameter) (q : Parameter)
    → pair_up (flat qs ++ q.key ∷ q.value ∷ []) ≡ some (qs ++ q ∷ [])
pair_up-snoc [] q = pair_up-flat q []
pair_up-snoc (p ∷ qs) q =
    ap pair_up (sym (flat-append (p ∷ qs) (q ∷ []))) ∙ pair_up-flat p (qs ++ q ∷ [])

-- If a task's own parameters parse, and its network is a name without '-', '=' or blanks other than
-- "host" and "none", then the container gets its own parameters and the network as the last one.
pub network_parameter :
    (task : Task) (qs : List Parameter)
    → (task.network_type == "host") ≡ false
    → (task.network_type == "none") ≡ false
    → is_empty task.network_type ≡ false
    → HasNone is_parameter_separator task.network_type
    → parameters_for task.parameters ≡ some qs
    → parameters_for (all_parameters task)
      ≡ some (qs ++ record { key = "net"; value = task.network_type } ∷ [])
unfolding pieces_of
network_parameter task qs not_host not_none named plain parsed =
    all_parameters_net task not_host not_none
    ∙ ap (λ l. pair_up (l ++ "net" ∷ pieces_of task.network_type))
        (parsed_pieces task.parameters qs parsed)
    ∙ ap (λ l. pair_up (flat qs ++ "net" ∷ l))
        (split_nonempty_none is_parameter_separator task.network_type plain named)
    ∙ pair_up-snoc qs (record { key = "net"; value = task.network_type })

length-flat : (qs : List Parameter) → length (flat qs) % 2 ≡ 0
length-flat [] = refl
length-flat (q ∷ qs) = omega (arith, length-flat qs)

-- If the network of a task, other than "host" and "none", is cut into an even number of pieces,
-- such as the two of "my-net", building the parameters panics, though the task's own parameters
-- parse.
pub network_panics :
    (task : Task) (qs : List Parameter)
    → (task.network_type == "host") ≡ false
    → (task.network_type == "none") ≡ false
    → length (split_nonempty is_parameter_separator task.network_type) % 2 ≡ 0
    → parameters_for task.parameters ≡ some qs
    → parameters_for (all_parameters task) ≡ none
unfolding pieces_of
network_panics task qs not_host not_none even parsed =
    all_parameters_net task not_host not_none
    ∙ ap (λ l. pair_up (l ++ "net" ∷ pieces_of task.network_type))
        (parsed_pieces task.parameters qs parsed)
    ∙ (pair_up_panics_iff (flat qs ++ "net" ∷ pieces_of task.network_type)).1 (
        inr (
          omega (
            arith,
            length-flat qs,
            length-append {0} (flat qs) ("net" ∷ pieces_of task.network_type),
          )))
