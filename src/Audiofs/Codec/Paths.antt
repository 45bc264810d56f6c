-- ===== src/Audiofs/Codec/Paths.antt =====
-- The paths through the widgets of a codec in audiofs.c, against a description of them by rules.
use awase.Base.{
  ℕ, zero, suc, ◌≡◌, ◌≢◌, ◌↔◌, refl, ap, sym, ◌∙◌, true, false, Option, none, some, List, [], ◌∷◌,
  if◌then◌else◌, if_split,
}
use mathlib.Core.Path.{subst}
use awase.Audiofs.Codec.{Codec, Widget, is_output, find_widget, walk_path, path_from_pin}

-- From a widget on, first connections lead to a converter, over these widgets, which are at most as
-- many as the number.
pub data Leads (codec : Codec) : ℕ → ℕ → ℕ → List ℕ → Type 0 where
  here :
      {n nid : ℕ} (w : Widget)
      → find_widget codec nid ≡ some w
      → is_output w.kind ≡ true
      → Leads codec (suc n) nid nid (nid ∷ [])
  over :
      {n nid next dac : ℕ} {path : List ℕ} (w : Widget) (others : List ℕ)
      → find_widget codec nid ≡ some w
      → is_output w.kind ≡ false
      → w.conns ≡ next ∷ others
      → Leads codec n next dac path
      → Leads codec (suc n) nid dac (nid ∷ path)

walk_path-here :
    (codec : Codec) (n nid : ℕ) (w : Widget)
    → find_widget codec nid ≡ some w
    → is_output w.kind ≡ true
    → walk_path (suc n) codec nid ≡ (nid, nid ∷ [])
unfolding walk_path
walk_path-here codec n nid w found out = rw (found, out, walk_path) refl

walk_path-over :
    (codec : Codec) (n nid next : ℕ) (w : Widget) (others : List ℕ)
    → find_widget codec nid ≡ some w
    → is_output w.kind ≡ false
    → w.conns ≡ next ∷ others
    → walk_path (suc n) codec nid ≡ ((walk_path n codec next).0, nid ∷ (walk_path n codec next).1)
unfolding walk_path
walk_path-over codec n nid next w others found on conns = rw (found, on, conns, walk_path) refl

-- Every path of the rules is found.
module _ (codec : Codec) where
  walk_path-finds :
      {n nid dac : ℕ} {path : List ℕ}
      → Leads codec n nid dac path
      → walk_path n codec nid ≡ (dac, path)
  walk_path-finds (here w found out) = walk_path-here codec _ _ w found out
  walk_path-finds {nid = nid} (over w others found on conns rest) =
      walk_path-over codec _ _ _ w others found on conns
      ∙ ap (λ (r : ℕ × List ℕ). (r.0, nid ∷ r.1)) (walk_path-finds rest)

-- What is found is a path of the rules.
walk_path-Leads :
    (n : ℕ) (codec : Codec) (nid : ℕ)
    → (walk_path n codec nid).0 ≢ 0
    → Leads codec n nid (walk_path n codec nid).0 (walk_path n codec nid).1
unfolding walk_path
walk_path-Leads zero codec nid = λ found. absurd (found refl)
walk_path-Leads (suc n) codec nid =
    by_widget (λ next. walk_path-Leads n codec next) (find_widget codec nid) refl
  where
    by_widget :
        ((next : ℕ)
          → (walk_path n codec next).0 ≢ 0
          → Leads codec n next (walk_path n codec next).0 (walk_path n codec next).1)
        → (o : Option Widget) → find_widget codec nid ≡ o
        → (let r : ℕ × List ℕ = elim o [
          | none ↦ (0, [])
          | some w ↦ if is_output w.kind then (nid, nid ∷ []) else elim w.conns [
            | [] ↦ (0, nid ∷ [])
            | next ∷ others ↦ let (dac, rest) = walk_path n codec next in (dac, nid ∷ rest)
          ]
        ] in
            r.0 ≢ 0 → Leads codec (suc n) nid r.0 r.1)
    by_widget ih none e = λ found. absurd (found refl)
    by_widget ih (some w) e =
        if_split (λ (r : ℕ × List ℕ). r.0 ≢ 0 → Leads codec (suc n) nid r.0 r.1) (is_output w.kind)
          _ _ (λ out found. here w e out) (λ on. by_conns w.conns refl on)
      where
        by_conns :
            (cs : List ℕ)
            → w.conns ≡ cs
            → is_output w.kind ≡ false
            → (let r : ℕ × List ℕ = elim cs [
              | [] ↦ (0, nid ∷ [])
              | next ∷ others ↦ let (dac, rest) = walk_path n codec next in (dac, nid ∷ rest)
            ] in
                r.0 ≢ 0 → Leads codec (suc n) nid r.0 r.1)
        by_conns [] k on = λ found. absurd (found refl)
        by_conns (next ∷ others) k on = λ found. over w others e on k (ih next found)

pub path_from_pin-Leads :
    (codec : Codec) (pin dac : ℕ) (path : List ℕ)
    → dac ≢ 0
    → (path_from_pin codec pin ≡ (dac, path)) ↔ Leads codec 8 pin dac path
unfolding path_from_pin
path_from_pin-Leads codec pin dac path real = (
  λ e.
      let found =
        walk_path-Leads 8 codec pin (λ z. real (sym (ap (λ (r : ℕ × List ℕ). r.0) e) ∙ z)) in
      subst (λ (r : ℕ × List ℕ). Leads codec 8 pin r.0 r.1) e found,
  λ l. walk_path-finds codec l,
)
