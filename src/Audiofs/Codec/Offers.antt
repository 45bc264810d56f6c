-- ===== src/Audiofs/Codec/Offers.antt =====
-- What the widgets of audiofs.c's codecs offer for an output, by a description of its own.
use awase.Base.{
  ℕ, zero, suc, ◌+◌, ◌≡◌, ◌≢◌, refl, ap, sym, ◌∙◌, not, ltb, ◌==◌, if_split, true, false, Option,
  none, some, List, [], ◌∷◌, ◌++◌, arith,
}
use awase.Base.Indexed.{get_elem?}
use awase.Audiofs.Codec.Paths.{Leads, path_from_pin-Leads}
use awase.Audiofs.Codec.{
  Codec, Widget, WidgetType, audio_output, pin_complex, other_type, is_pin, path_from_pin,
  devkind_priority, Choice, candidate,
}

-- Line out, speaker, headphones, CD, S/PDIF, other digital, by their numbers.
abbrev priorities : List ℕ
priorities = 3 ∷ 10 ∷ 5 ∷ 0 ∷ 1 ∷ 2 ∷ []

-- What a widget offers: a valid pin that is connected (its connectivity is not 1) and of a kind of
-- output, first connections leading from it to a converter, and the priority of its kind.
pub record Offers (codec : Codec) (cad : ℕ) (w : Widget) (c : Choice) : Type 0 where
  valid : w.valid ≡ true
  pin : w.kind ≡ pin_complex
  connected : w.connectivity ≢ 1
  path : List ℕ
  leads : Leads codec 8 w.nid c.dac path
  real : c.dac ≢ 0
  prior : get_elem? priorities w.devkind ≡ some c.priority
  bus : c.cad ≡ cad

-- What the widgets of a codec offer, in their order.
pub data OfWidgets (codec : Codec) (cad : ℕ) : List Widget → List Choice → Type 0 where
  no_widget : OfWidgets codec cad [] []
  offered :
      {w : Widget} {ws : List Widget} {cs : List Choice} (c : Choice)
      → Offers codec cad w c
      → OfWidgets codec cad ws cs
      → OfWidgets codec cad (w ∷ ws) (c ∷ cs)
  passed :
      {w : Widget} {ws : List Widget} {cs : List Choice}
      → ((c : Choice) → ¬ Offers codec cad w c)
      → OfWidgets codec cad ws cs
      → OfWidgets codec cad (w ∷ ws) cs

-- What the populated codecs offer, in their order, the first with this address.
pub data OfCodecs : ℕ → List Codec → List Choice → Type 0 where
  no_codec : {cad : ℕ} → OfCodecs cad [] []
  present :
      {cad : ℕ} {codec : Codec} {codecs : List Codec} {xs cs : List Choice}
      → codec.populated ≡ true
      → OfWidgets codec cad codec.widgets xs
      → OfCodecs (cad + 1) codecs cs
      → OfCodecs cad (codec ∷ codecs) (xs ++ cs)
  absent :
      {cad : ℕ} {codec : Codec} {codecs : List Codec} {cs : List Choice}
      → codec.populated ≡ false
      → OfCodecs (cad + 1) codecs cs
      → OfCodecs cad (codec ∷ codecs) cs

pin_kind : (k : WidgetType) → not (is_pin k) ≡ false → k ≡ pin_complex
pin_kind audio_output e = absurd (ground arith)
pin_kind pin_complex e = refl
pin_kind other_type e = absurd (ground arith)

priority_of : (k : ℕ) → ltb 5 k ≡ false → get_elem? priorities k ≡ some (devkind_priority k)
unfolding devkind_priority
priority_of zero e = refl
priority_of (suc zero) e = refl
priority_of (suc (suc zero)) e = refl
priority_of (suc (suc (suc zero))) e = refl
priority_of (suc (suc (suc (suc zero)))) e = refl
priority_of (suc (suc (suc (suc (suc zero))))) e = refl
priority_of (suc (suc (suc (suc (suc (suc k)))))) e = absurd (ground arith)

no_priority : (k p : ℕ) → ltb 5 k ≡ true → ¬ (get_elem? priorities k ≡ some p)
no_priority zero p e h = absurd (ground arith)
no_priority (suc zero) p e h = absurd (ground arith)
no_priority (suc (suc zero)) p e h = absurd (ground arith)
no_priority (suc (suc (suc zero))) p e h = absurd (ground arith)
no_priority (suc (suc (suc (suc zero)))) p e h = absurd (ground arith)
no_priority (suc (suc (suc (suc (suc zero))))) p e h = absurd (ground arith)
no_priority (suc (suc (suc (suc (suc (suc k)))))) p e h = absurd (ground arith)

-- A widget's offer is the candidate that the code makes of it, if it makes one.
abbrev pub Settles : Codec → ℕ → Widget → Option Choice → Type 0
Settles codec cad w none = (c : Choice) → ¬ Offers codec cad w c
Settles codec cad w (some c) = Offers codec cad w c

pub candidate-Settles :
    (codec : Codec) (cad : ℕ) (w : Widget) → Settles codec cad w (candidate codec cad w)
unfolding candidate path_from_pin
candidate-Settles codec cad w =
    let P : Option Choice → Type 0 = Settles codec cad w in
    let dac : ℕ = (path_from_pin codec w.nid).0 in
    if_split P (not w.valid) _ _ (λ t c o. let v = o.valid in absurd (ground arith))
      (λ valid.
        if_split P (not (is_pin w.kind)) _ _
          (λ t c o. let pin : is_pin w.kind ≡ true = ap is_pin o.pin in absurd (ground arith))
          (λ pin.
            if_split P (w.connectivity == 1) _ _ (λ t c o. o.connected (ground arith))
              (λ connected.
                if_split P (ltb 5 w.devkind) _ _
                  (λ t c o. no_priority w.devkind c.priority t o.prior)
                  (λ kind.
                    if_split P (dac == 0) _ _
                      (λ t c o.
                        let found : dac ≡ c.dac =
                          ap (λ (r : ℕ × List ℕ). r.0)
                            ((path_from_pin-Leads codec w.nid c.dac o.path o.real).1 o.leads) in
                        o.real (sym found ∙ ground arith))
                      (λ real.
                        let nonzero : dac ≢ 0 = λ z. absurd (ground arith) in
                        record {
                          valid = ground arith;
                          pin = pin_kind w.kind pin;
                          connected = λ one. absurd (ground arith);
                          path = (path_from_pin codec w.nid).1;
                          leads =
                              (path_from_pin-Leads codec w.nid dac (path_from_pin codec w.nid).1
                                  nonzero).0
                                refl;
                          real = nonzero;
                          prior = priority_of w.devkind kind;
                          bus = refl;
                        })))))
