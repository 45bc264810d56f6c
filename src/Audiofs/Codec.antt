-- ===== src/Audiofs/Codec.antt =====
-- The widgets of a codec in audiofs.c, `audiofs_path_from_pin`, and the choice of a converter in
-- `audiofs_configure_output_stream`. The fields that the code takes out of the words of the
-- hardware by macros of the kernel's headers are fields here.
pub mod Paths
pub mod Offers
pub mod Choices
pub mod Connections
use awase.Base.{
  ℕ, zero, suc, ◌+◌, ◌-◌, Bool, true, false, not, ◌&&◌, ◌||◌, Option, none, some, List, [], ◌∷◌,
  length, take, ltb, leb, ◌==◌, if◌then◌else◌,
}
use awase.Base.Indexed.{get_elem?}

pub data WidgetType : Type 0 where
  audio_output : WidgetType
  pin_complex : WidgetType
  other_type : WidgetType

pub record Widget : Type 0 where
  pub valid : Bool
  pub nid : ℕ
  pub kind : WidgetType
  pub devkind : ℕ
  pub connectivity : ℕ
  pub conns : List ℕ

-- `widgets` has the first `widget_total` entries of the array.
pub record Codec : Type 0 where
  pub populated : Bool
  pub supp_pcm_size_rate : ℕ
  pub widget_start : ℕ
  pub widgets : List Widget

abbrev pub path_max_depth : ℕ
path_max_depth = 8

abbrev pub is_output : WidgetType → Bool
is_output audio_output = true
is_output pin_complex = false
is_output other_type = false

abbrev pub is_pin : WidgetType → Bool
is_pin audio_output = false
is_pin pin_complex = true
is_pin other_type = false

-- The valid widget with a number.
unfoldable pub find_widget : Codec → ℕ → Option Widget
find_widget codec nid =
    if ltb nid codec.widget_start
    then none
    else elim (get_elem? codec.widgets (nid - codec.widget_start)) [
      | none ↦ none
      | some w ↦ if w.valid then some w else none
    ]

-- Follows first connections to a converter; gives its number, or 0, and the numbers on the way.
unfoldable pub walk_path : ℕ → Codec → ℕ → ℕ × List ℕ
walk_path zero codec cur = (0, [])
walk_path (suc n) codec cur = elim (find_widget codec cur) [
  | none ↦ (0, [])
  | some w ↦ if is_output w.kind then (cur, cur ∷ []) else elim w.conns [
    | [] ↦ (0, cur ∷ [])
    | next ∷ others ↦ let (dac, rest) = walk_path n codec next in (dac, cur ∷ rest)
  ]
]

unfoldable pub path_from_pin : Codec → ℕ → ℕ × List ℕ
unfolding walk_path
path_from_pin codec pin_nid = walk_path path_max_depth codec pin_nid

-- Line out, speaker, headphones, CD, S/PDIF, other digital.
unfoldable pub devkind_priority : ℕ → ℕ
devkind_priority devkind =
    if devkind == 0
    then 3
    else if devkind == 1
    then 10
    else if devkind == 2
    then 5
    else if devkind == 3
    then 0
    else if devkind == 4
    then 1
    else 2

-- A converter, with the codec's address, and its priority.
pub record Choice : Type 0 where
  pub priority : ℕ
  pub cad : ℕ
  pub dac : ℕ

-- The converter that a widget leads to, if it is a connected output pin.
unfoldable pub candidate : Codec → ℕ → Widget → Option Choice
unfolding path_from_pin devkind_priority
candidate codec cad w =
    let dac = (path_from_pin codec w.nid).0 in
    if not w.valid
    then none
    else if not (is_pin w.kind)
    then none
    else if w.connectivity == 1
    then none
    else if ltb 5 w.devkind
    then none
    else if dac == 0
    then none
    else some (record { priority = devkind_priority w.devkind; cad = cad; dac = dac })

-- A choice gives way only to one of a higher priority.
unfoldable pub prefer : Option Choice → Option Choice → Option Choice
prefer best none = best
prefer none (some c) = some c
prefer (some b) (some c) = if ltb b.priority c.priority then some c else some b

unfoldable pub choose_widgets : Codec → ℕ → List Widget → Option Choice → Option Choice
unfolding candidate prefer
choose_widgets codec cad [] best = best
choose_widgets codec cad (w ∷ ws) best =
    choose_widgets codec cad ws (prefer best (candidate codec cad w))

unfoldable pub choose_codecs : ℕ → List Codec → Option Choice → Option Choice
unfolding choose_widgets
choose_codecs cad [] best = best
choose_codecs cad (codec ∷ codecs) best =
    choose_codecs (cad + 1) codecs
      (if codec.populated then choose_widgets codec cad codec.widgets best else best)

unfoldable pub choose_dac : List Codec → Option Choice
unfolding choose_codecs
choose_dac codecs = choose_codecs 0 codecs none
