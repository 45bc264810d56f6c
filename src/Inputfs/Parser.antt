-- ===== src/Inputfs/Parser.antt =====
-- inputfs_parser.c of inputfs/sys/dev/inputfs: where the fields of a device's reports are, found once
-- in its HID descriptor, and taking the fields out of a report. The kernel's HID library, applied to
-- the descriptor, is the parameter `Hid`; a report is the list of its bytes.
pub mod Keys
pub mod Touch
pub mod Digitizer
pub mod Extracting
use awase.Base.{
  ℕ, zero, suc, ◌+◌, ◌-◌, ◌*◌, ◌%◌, Bool, true, false, not, Option, none, some, List, [], ◌∷◌, ◌++◌,
  length, drop, replicate, ltb, ◌==◌, ◌&&◌, ◌||◌, if◌then◌else◌,
}

-- `struct hid_location`, as far as the parser uses it.
pub record Location : Type 0 where
  pub size : ℕ
  pub count : ℕ
  pub pos : ℕ

abbrev pub no_location : Location
no_location = record { size = 0; count = 0; pos = 0 }

-- The usages that the parser asks for, and what it reads of a `struct hid_item`.
pub data Usage : Type 0 where
  axis_x : Usage
  axis_y : Usage
  wheel : Usage
  button_1 : Usage
  left_control : Usage
  no_key : Usage
  tip_switch : Usage
  confidence : Usage
  contact_id : Usage
  scan_time : Usage
  contact_count : Usage
  input_mode : Usage

pub record Item : Type 0 where
  pub is_input : Bool
  pub is_button_page : Bool
  pub is_keyboard_page : Bool
  pub is_variable : Bool
  pub is_x : Bool
  pub is_y : Bool
  pub report_id : ℕ
  pub loc : Location
  pub logical_minimum : ℕ
  pub logical_maximum : ℕ

-- The HID library on one descriptor: `hid_locate` of an input field by its index, and of a feature
-- field; the items of a walk, where it could be started; `hid_report_size`; and reading a field of a
-- report as a signed or an unsigned number.
pub record Hid : Type 0 where
  pub locate : Usage → ℕ → Option (Location × ℕ)
  pub locate_feature : Usage → Option (Location × ℕ)
  pub items : Option (List Item)
  pub report_size : ℕ → ℕ
  pub get_data : List ℕ → Location → ℕ
  pub get_udata : List ℕ → Location → ℕ

unfoldable pub report_id_matches : ℕ → List ℕ → Bool
report_id_matches cached_id [] = false
report_id_matches cached_id (b ∷ buf) = if cached_id == 0 then true else b == cached_id

-- A field that is looked for at one index, with its report.
unfoldable pub found_at : Option (Location × ℕ) → Location × ℕ
found_at none = (no_location, 0)
found_at (some found) = found

pub record PointerCache : Type 0 where
  pub loc_x : Location × ℕ
  pub loc_y : Location × ℕ
  pub loc_wheel : Location × ℕ
  pub loc_buttons : Location × ℕ
  pub button_count : ℕ
  pub has_wheel : Bool
  pub locations_valid : Bool

abbrev pub no_pointer : PointerCache
no_pointer = record {
  loc_x = (no_location, 0);
  loc_y = (no_location, 0);
  loc_wheel = (no_location, 0);
  loc_buttons = (no_location, 0);
  button_count = 0;
  has_wheel = false;
  locations_valid = false;
}

-- The walk that counts the buttons, up to 32.
unfoldable pub count_buttons : ℕ → List Item → ℕ
count_buttons count [] = count
count_buttons count (hi ∷ items) =
    count_buttons (if hi.is_input && hi.is_button_page && ltb count 32 then count + 1 else count)
      items

unfoldable pub buttons_of : Option (Location × ℕ) → Option (List Item) → ℕ
unfolding count_buttons
buttons_of none items = 0
buttons_of (some found) none = 0
buttons_of (some found) (some items) = count_buttons 0 items

abbrev pub is_found : Option (Location × ℕ) → Bool
is_found none = false
is_found (some found) = true

-- No descriptor is `none`.
unfoldable pub pointer_locate : Option Hid → PointerCache
unfolding found_at buttons_of
pointer_locate none = no_pointer
pointer_locate (some hid) =
    let x = found_at (hid.locate axis_x 0) in
    let y = found_at (hid.locate axis_y 0) in
    let w = found_at (hid.locate wheel 0) in
    let b = found_at (hid.locate button_1 0) in
    record {
      loc_x = x;
      loc_y = y;
      loc_wheel = w;
      loc_buttons = b;
      button_count = buttons_of (hid.locate button_1 0) hid.items;
      has_wheel = is_found (hid.locate wheel 0);
      locations_valid = ltb 0 x.0.size || ltb 0 y.0.size || ltb 0 w.0.size || ltb 0 b.0.size;
    }

-- A field of a report that has it: its size is not 0 and the report is the field's.
unfoldable pub is_present : Location × ℕ → List ℕ → Bool
unfolding report_id_matches
is_present (loc, id) buf = ltb 0 loc.size && report_id_matches id buf

-- What the caller's variables hold afterwards, and whether something was taken out.
pub record PointerReport : Type 0 where
  pub dx : ℕ
  pub dy : ℕ
  pub dw : ℕ
  pub buttons : ℕ

unfoldable pub extract_pointer : Hid → PointerCache → List ℕ → PointerReport → Bool × PointerReport
unfolding is_present
extract_pointer hid p buf out =
    let has_x = is_present p.loc_x buf in
    let has_y = is_present p.loc_y buf in
    let has_w = is_present p.loc_wheel buf in
    let has_b = is_present p.loc_buttons buf in
    let all_buttons =
      if ltb 0 p.button_count
      then record p.loc_buttons.0 { size = p.button_count }
      else p.loc_buttons.0 in
    if not p.locations_valid || (length buf == 0) then (false, out) else (
      has_x || has_y || has_w || has_b,
      record {
        dx = if has_x then hid.get_data buf p.loc_x.0 else out.dx;
        dy = if has_y then hid.get_data buf p.loc_y.0 else out.dy;
        dw = if has_w then hid.get_data buf p.loc_wheel.0 else out.dw;
        buttons = if has_b then hid.get_udata buf all_buttons else out.buttons;
      },
    )
