-- ===== src/Inputfs/Parser/Touch.antt =====
-- The touch pad's fields in inputfs_parser.c: `inputfs_digitizer_locate` and
-- `inputfs_extract_digitizer`.
use awase.Base.{
  ℕ, zero, suc, ◌+◌, ◌%◌, Bool, true, false, not, Option, none, some, List, [], ◌∷◌, length, drop,
  ltb, ◌==◌, ◌&&◌, ◌||◌, if◌then◌else◌,
}
use awase.Inputfs.Parser.{
  Location, no_location, Usage, axis_x, axis_y, button_1, tip_switch, confidence, contact_id,
  scan_time, contact_count, input_mode, Item, Hid, report_id_matches,
}

-- The digitizer's part of the state, with the feature field of the mode and its report.
pub record DigitizerCache : Type 0 where
  pub locations_valid : Bool
  pub report_id : ℕ
  pub loc_tip_switch : Location
  pub loc_confidence : Location
  pub loc_contact_id : Location
  pub loc_touch_x : Location
  pub loc_touch_y : Location
  pub loc_scan_time : Location
  pub loc_contact_count : Location
  pub loc_touch_button : Location
  pub touch_x : ℕ × ℕ
  pub touch_y : ℕ × ℕ
  pub device_mode : Option (Location × ℕ × ℕ)

-- The loop over the occurrences of a usage, `n` of them from index `idx` on, for the one in a report.
unfoldable pub find_in_report : Hid → Usage → ℕ → ℕ → ℕ → Location
find_in_report hid usage id idx zero = no_location
find_in_report hid usage id idx (suc n) =
    let rest = find_in_report hid usage id (idx + 1) n in
    elim (hid.locate usage idx) [
      | none ↦ no_location
      | some found ↦ if found.1 == id then found.0 else rest
    ]

-- A field that is accepted only in the digitizer's report.
unfoldable pub same_report : ℕ → Option (Location × ℕ) → Location
same_report id none = no_location
same_report id (some (loc, loc_id)) = if loc_id == id then loc else no_location

-- The walk for the range of an axis, where the last item counts.
unfoldable pub range_of : (Item → Bool) → ℕ → ℕ × ℕ → List Item → ℕ × ℕ
range_of is_axis id range [] = range
range_of is_axis id range (hi ∷ items) =
    range_of is_axis id
      (if hi.is_input && (hi.report_id == id) && is_axis hi
        then (hi.logical_minimum, hi.logical_maximum)
        else range)
      items

unfoldable pub walk : Option (List Item) → List Item
walk none = []
walk (some items) = items

unfoldable pub mode_field : Hid → Option (Location × ℕ) → Option (Location × ℕ × ℕ)
mode_field hid none = none
mode_field hid (some (loc, id)) =
    if ltb 0 (hid.report_size id) && ltb 0 loc.size
    then some (loc, id, hid.report_size id)
    else none

-- The early returns leave the mode's fields as they were.
abbrev pub no_digitizer : Option (Location × ℕ × ℕ) → DigitizerCache
no_digitizer mode = record {
  locations_valid = false;
  report_id = 0;
  loc_tip_switch = no_location;
  loc_confidence = no_location;
  loc_contact_id = no_location;
  loc_touch_x = no_location;
  loc_touch_y = no_location;
  loc_scan_time = no_location;
  loc_contact_count = no_location;
  loc_touch_button = no_location;
  touch_x = (0, 0);
  touch_y = (0, 0);
  device_mode = mode;
}

-- From the tip switch on, which names the digitizer's report.
unfoldable pub locate_in_report : Hid → Location × ℕ → DigitizerCache
unfolding find_in_report same_report range_of walk mode_field
locate_in_report hid (tip, id) =
    let x = find_in_report hid axis_x id 0 8 in
    let y = find_in_report hid axis_y id 0 8 in
    record {
      locations_valid = ltb 0 tip.size && ltb 0 x.size && ltb 0 y.size;
      report_id = id;
      loc_tip_switch = tip;
      loc_confidence = same_report id (hid.locate confidence 0);
      loc_contact_id = same_report id (hid.locate contact_id 0);
      loc_touch_x = x;
      loc_touch_y = y;
      loc_scan_time = same_report id (hid.locate scan_time 0);
      loc_contact_count = same_report id (hid.locate contact_count 0);
      loc_touch_button = find_in_report hid button_1 id 0 8;
      touch_x = range_of (λ hi. hi.is_x) id (0, 0) (walk hid.items);
      touch_y = range_of (λ hi. not hi.is_x && hi.is_y) id (0, 0) (walk hid.items);
      device_mode = mode_field hid (hid.locate_feature input_mode);
    }

unfoldable pub locate_from :
    Hid → Option (Location × ℕ × ℕ) → Option (Location × ℕ) → DigitizerCache
unfolding locate_in_report
locate_from hid mode none = no_digitizer mode
locate_from hid mode (some found) = locate_in_report hid found

unfoldable pub digitizer_locate : Option (Location × ℕ × ℕ) → Option Hid → DigitizerCache
unfolding locate_from
digitizer_locate mode none = no_digitizer mode
digitizer_locate mode (some hid) = locate_from hid mode (hid.locate tip_switch 0)

pub record Touch : Type 0 where
  pub tip : ℕ
  pub confident : ℕ
  pub contact : ℕ
  pub x : ℕ
  pub y : ℕ
  pub scan : ℕ
  pub contacts : ℕ
  pub button : ℕ

-- One field, or what the caller had.
abbrev pub field_or : Hid → List ℕ → Location → ℕ → ℕ
field_or hid body loc default = if ltb 0 loc.size then hid.get_udata body loc else default

unfoldable pub extract_digitizer : Hid → DigitizerCache → List ℕ → Touch → Bool × Touch
unfolding report_id_matches
extract_digitizer hid p buf out =
    let body = drop 1 buf in
    if (length buf == 0) || not p.locations_valid || not (report_id_matches p.report_id buf)
    then (false, out)
    else (
      true,
      record {
        tip = field_or hid body p.loc_tip_switch out.tip % 256;
        confident = field_or hid body p.loc_confidence 1 % 256;
        contact = field_or hid body p.loc_contact_id out.contact % 256;
        x = field_or hid body p.loc_touch_x out.x;
        y = field_or hid body p.loc_touch_y out.y;
        scan = field_or hid body p.loc_scan_time out.scan;
        contacts = field_or hid body p.loc_contact_count out.contacts % 256;
        button = field_or hid body p.loc_touch_button out.button % 256;
      },
    )
