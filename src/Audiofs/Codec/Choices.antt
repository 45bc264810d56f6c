-- ===== src/Audiofs/Codec/Choices.antt =====
-- The choice of a converter in audiofs.c, against the list of all that could be chosen.
use awase.Base.{
  ℕ, ◌+◌, ◌≤◌, ◌<◌, if_split, ◌≡◌, refl, ap, sym, ◌∙◌, inl, inr, Bool, Bool-cases, true, false,
  Option, none, some, List, [], ◌∷◌, ◌++◌, append-nil, append_assoc, ltb, if◌then◌else◌, arith,
}
use mathlib.Core.Path.{subst}
use awase.Audiofs.Codec.Offers.{
  OfWidgets, no_widget, offered, passed, OfCodecs, no_codec, present, absent, Settles,
  candidate-Settles,
}
use awase.Audiofs.Codec.{
  Codec, Widget, Choice, candidate, prefer, choose_widgets, choose_codecs, choose_dac,
}

abbrev to_list : Option Choice → List Choice
to_list none = []
to_list (some c) = c ∷ []

abbrev widgets_candidates : Codec → ℕ → List Widget → List Choice
widgets_candidates codec cad [] = []
widgets_candidates codec cad (w ∷ ws) =
    to_list (candidate codec cad w) ++ widgets_candidates codec cad ws

abbrev candidates : ℕ → List Codec → List Choice
candidates cad [] = []
candidates cad (codec ∷ codecs) =
    (if codec.populated then widgets_candidates codec cad codec.widgets else [])
    ++ candidates (cad + 1) codecs

abbrev AllBelow : ℕ → List Choice → Type 0
AllBelow p [] = Unit
AllBelow p (c ∷ cs) = (c.priority < p) × AllBelow p cs

-- The first of the highest priority, or none where there are none.
pub record IsFirst (cs : List Choice) (c : Choice) : Type 0 where
  pub before : List Choice
  pub behind : List Choice
  pub split : cs ≡ before ++ (c ∷ behind)
  pub above : AllBelow c.priority before
  pub not_below : AllBelow (c.priority + 1) behind

abbrev pub IsChoice : List Choice → Option Choice → Type 0
IsChoice cs none = cs ≡ []
IsChoice cs (some c) = IsFirst cs c

AllBelow-append :
    (p : ℕ) (xs ys : List Choice) → AllBelow p xs → AllBelow p ys → AllBelow p (xs ++ ys)
AllBelow-append p [] ys h k = k
AllBelow-append p (x ∷ xs) ys h k = (h.0, AllBelow-append p xs ys h.1 k)

AllBelow-mono : (p q : ℕ) (xs : List Choice) → p ≤ q → AllBelow p xs → AllBelow q xs
AllBelow-mono p q [] le h = tt
AllBelow-mono p q (x ∷ xs) le h = (omega (arith, h.0), AllBelow-mono p q xs le h.1)

prefer-IsChoice :
    (cs : List Choice) (best o : Option Choice)
    → IsChoice cs best
    → IsChoice (cs ++ to_list o) (prefer best o)
unfolding prefer
prefer-IsChoice cs none none h = append-nil cs ∙ h
prefer-IsChoice cs (some b) none h = subst (λ xs. IsFirst xs b) (sym (append-nil cs)) h
prefer-IsChoice cs none (some c) h = record {
  before = [];
  behind = [];
  split = ap (λ (xs : List Choice). xs ++ (c ∷ [])) h;
  above = tt;
  not_below = tt;
}
prefer-IsChoice cs (some b) (some c) h = elim (Bool-cases (ltb b.priority c.priority)) [
  | inl t ↦
      let lt : b.priority < c.priority = ground arith in
      rw t (record {
        before = cs;
        behind = [];
        split = refl;
        above = subst (AllBelow c.priority) (sym h.split) (
            AllBelow-append c.priority h.before (b ∷ h.behind)
              (AllBelow-mono b.priority c.priority h.before (omega arith) h.above)
              (lt, AllBelow-mono (b.priority + 1) c.priority h.behind (omega arith) h.not_below));
        not_below = tt;
      })
  | inr f ↦
      let le : c.priority < b.priority + 1 = ground arith in
      rw f (record {
        before = h.before;
        behind = h.behind ++ (c ∷ []);
        split =
            ap (λ (xs : List Choice). xs ++ (c ∷ [])) h.split
            ∙ append_assoc h.before (b ∷ h.behind) (c ∷ []);
        above = h.above;
        not_below = AllBelow-append (b.priority + 1) h.behind (c ∷ []) h.not_below (le, tt);
      })
]

choose_widgets-IsChoice :
    (codec : Codec) (cad : ℕ) (ws : List Widget) (cs : List Choice) (best : Option Choice)
    → IsChoice cs best
    → IsChoice (cs ++ widgets_candidates codec cad ws) (choose_widgets codec cad ws best)
unfolding choose_widgets
choose_widgets-IsChoice codec cad [] cs best h =
    subst (λ xs. IsChoice xs best) (sym (append-nil cs)) h
choose_widgets-IsChoice codec cad (w ∷ ws) cs best h =
    let o = candidate codec cad w in
    subst (λ xs. IsChoice xs (choose_widgets codec cad ws (prefer best o)))
      (append_assoc cs (to_list o) (widgets_candidates codec cad ws))
      (choose_widgets-IsChoice codec cad ws (cs ++ to_list o) (prefer best o)
        (prefer-IsChoice cs best o h))

choose_codecs-IsChoice :
    (cad : ℕ) (codecs : List Codec) (cs : List Choice) (best : Option Choice)
    → IsChoice cs best
    → IsChoice (cs ++ candidates cad codecs) (choose_codecs cad codecs best)
unfolding choose_codecs
choose_codecs-IsChoice cad [] cs best h = subst (λ xs. IsChoice xs best) (sym (append-nil cs)) h
choose_codecs-IsChoice cad (codec ∷ codecs) cs best h =
    let more = widgets_candidates codec cad codec.widgets in
    let rest = candidates (cad + 1) codecs in
    let best' = choose_widgets codec cad codec.widgets best in
    by_populated more rest best' codec.populated
      (choose_codecs-IsChoice (cad + 1) codecs (cs ++ more) best'
        (choose_widgets-IsChoice codec cad codec.widgets cs best h))
      (choose_codecs-IsChoice (cad + 1) codecs cs best h)
  where
    by_populated :
        (more rest : List Choice) (best' : Option Choice) (populated : Bool)
        → IsChoice ((cs ++ more) ++ rest) (choose_codecs (cad + 1) codecs best')
        → IsChoice (cs ++ rest) (choose_codecs (cad + 1) codecs best)
        → IsChoice
            (cs ++ ((if populated then more else []) ++ rest))
            (choose_codecs (cad + 1) codecs (if populated then best' else best))
    by_populated more rest best' true taken left =
        subst (λ xs. IsChoice xs (choose_codecs (cad + 1) codecs best')) (append_assoc cs more rest)
          taken
    by_populated more rest best' false taken left = left

Settles-OfWidgets :
    (codec : Codec) (cad : ℕ) (w : Widget) (ws : List Widget) {cs : List Choice} (o : Option Choice)
    → Settles codec cad w o
    → OfWidgets codec cad ws cs
    → OfWidgets codec cad (w ∷ ws) (to_list o ++ cs)
Settles-OfWidgets codec cad w ws none none_offered rest = passed none_offered rest
Settles-OfWidgets codec cad w ws (some c) offer rest = offered c offer rest

widgets_candidates-OfWidgets :
    (codec : Codec) (cad : ℕ) (ws : List Widget)
    → OfWidgets codec cad ws (widgets_candidates codec cad ws)
widgets_candidates-OfWidgets codec cad [] = no_widget
widgets_candidates-OfWidgets codec cad (w ∷ ws) =
    Settles-OfWidgets codec cad w ws (candidate codec cad w) (candidate-Settles codec cad w)
      (widgets_candidates-OfWidgets codec cad ws)

candidates-OfCodecs : (cad : ℕ) (codecs : List Codec) → OfCodecs cad codecs (candidates cad codecs)
candidates-OfCodecs cad [] = no_codec
candidates-OfCodecs cad (codec ∷ codecs) =
    let xs = widgets_candidates codec cad codec.widgets in
    let rest = candidates-OfCodecs (cad + 1) codecs in
    if_split (λ ys. OfCodecs cad (codec ∷ codecs) (ys ++ candidates (cad + 1) codecs))
      codec.populated _ _
      (λ t. present t (widgets_candidates-OfWidgets codec cad codec.widgets) rest)
      (λ f. absent f rest)

-- The choice is made among what the populated codecs offer, in the order of the codecs and of their
-- widgets, each valid connected pin of a kind of output offering the converter that first connections
-- lead to within eight widgets, with the listed priority of its kind: it is the first offer of the
-- highest priority, and there is none only where nothing is offered.
pub choose_dac-IsChoice :
    (codecs : List Codec)
    → (cs : List Choice) × OfCodecs 0 codecs cs × IsChoice cs (choose_dac codecs)
unfolding choose_dac
choose_dac-IsChoice codecs = (
  candidates 0 codecs,
  candidates-OfCodecs 0 codecs,
  choose_codecs-IsChoice 0 codecs [] none refl,
)
