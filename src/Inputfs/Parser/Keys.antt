-- ===== src/Inputfs/Parser/Keys.antt =====
-- The keyboard's fields in inputfs_parser.c: `inputfs_keyboard_locate` and
-- `inputfs_extract_keyboard`.
use awase.Base.{
  ℕ, zero, suc, ◌+◌, ◌*◌, ◌%◌, Bool, false, not, Option, none, some, List, [], ◌∷◌, length,
  replicate, ltb, ◌==◌, ◌&&◌, ◌||◌, if◌then◌else◌,
}
use awase.Inputfs.Parser.{Location, no_location, left_control, no_key, Item, Hid, is_present}

pub record KeyboardCache : Type 0 where
  pub loc_modifiers : Location × ℕ
  pub loc_keys : Location × ℕ
  pub prev_modifiers : ℕ
  pub prev_keys : List ℕ
  pub locations_valid : Bool

abbrev pub no_keyboard : KeyboardCache
no_keyboard = record {
  loc_modifiers = (no_location, 0);
  loc_keys = (no_location, 0);
  prev_modifiers = 0;
  prev_keys = replicate 6 0;
  locations_valid = false;
}

-- The walk for the first array of keys.
unfoldable pub first_array : List Item → Location × ℕ
first_array [] = (no_location, 0)
first_array (hi ∷ items) =
    let rest = first_array items in
    if hi.is_input && hi.is_keyboard_page && ltb 1 hi.loc.count && not hi.is_variable
    then (hi.loc, hi.report_id % 256)
    else rest

unfoldable pub locate_keys : Option (Location × ℕ) → Option (List Item) → Location × ℕ
unfolding first_array
locate_keys (some found) items = found
locate_keys none none = (no_location, 0)
locate_keys none (some items) = first_array items

-- The modifiers are read as one field of eight bits.
unfoldable pub locate_modifiers : Option (Location × ℕ) → Location × ℕ
locate_modifiers none = (no_location, 0)
locate_modifiers (some (loc, id)) = (record loc { size = 8; count = 1 }, id)

unfoldable pub keyboard_locate : Option Hid → KeyboardCache
unfolding locate_keys locate_modifiers
keyboard_locate none = no_keyboard
keyboard_locate (some hid) =
    let mods = locate_modifiers (hid.locate left_control 0) in
    let keys = locate_keys (hid.locate no_key 0) hid.items in
    record {
      loc_modifiers = mods;
      loc_keys = keys;
      prev_modifiers = 0;
      prev_keys = replicate 6 0;
      locations_valid = ltb 0 mods.0.size || ltb 0 keys.0.size;
    }

-- The loop over the elements of the array: `n` of them from element `i` on, then what the caller had.
unfoldable pub read_keys : Hid → List ℕ → Location → ℕ → ℕ → List ℕ → List ℕ
read_keys hid buf loc i zero out = out
read_keys hid buf loc i (suc n) [] = []
read_keys hid buf loc i (suc n) (k ∷ out) =
    (hid.get_udata buf (record loc { pos = loc.pos + loc.size * i; count = 1 }) % 256)
    ∷ read_keys hid buf loc (i + 1) n out

unfoldable pub extract_keyboard : Hid → KeyboardCache → List ℕ → ℕ → List ℕ → Bool × ℕ × List ℕ
unfolding is_present read_keys
extract_keyboard hid p buf out_modifiers out_keys =
    let has_mods = is_present p.loc_modifiers buf in
    let has_keys = is_present p.loc_keys buf in
    let count = if ltb 6 p.loc_keys.0.count then 6 else p.loc_keys.0.count in
    if not p.locations_valid || (length buf == 0) then (false, out_modifiers, out_keys) else (
      has_mods || has_keys,
      if has_mods then hid.get_udata buf p.loc_modifiers.0 % 256 else out_modifiers,
      if has_keys then read_keys hid buf p.loc_keys.0 0 count out_keys else out_keys,
    )
