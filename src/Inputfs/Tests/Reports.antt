-- ===== src/Inputfs/Tests/Reports.antt =====
-- A HID descriptor and reports at concrete inputs, and the theorems on inputfs_parser.c applied there.
use awase.Base.{ℕ, ◌+◌, ◌%◌, ◌≡◌, refl, Option, none, some, List, [], ◌∷◌}
use awase.Inputfs.Parser.{
  Location, Usage, Hid, axis_x, axis_y, wheel, button_1, left_control, no_key, tip_switch,
  confidence, contact_id, scan_time, contact_count, input_mode,
}
use awase.Inputfs.Parser.Touch.{digitizer_locate, locate_from, locate_in_report, find_in_report}
use awase.Inputfs.Parser.Digitizer.{InOneReport, digitizer_locate-InOneReport}

abbrev byte_at : List ℕ → ℕ → ℕ
byte_at [] i = 0
byte_at (b ∷ bs) i = b

-- A keyboard of eight modifier bits and six keys, with a touch pad in report 7 whose axes come behind
-- those of a mouse in report 1.
abbrev usages : Usage → ℕ → Option (Location × ℕ)
usages left_control i = some (record { size = 1; count = 8; pos = 0 }, 0)
usages no_key i = some (record { size = 8; count = 6; pos = 16 }, 0)
usages tip_switch i = some (record { size = 1; count = 1; pos = 0 }, 7)
usages axis_x i = some (
  record { size = 12; count = 1; pos = 8 + i },
  1 + i % 2 + i % 2 + i % 2 + i % 2 + i % 2 + i % 2,
)
usages axis_y i = some (record { size = 12; count = 1; pos = 20 + i }, 7)
usages wheel i = none
usages button_1 i = none
usages confidence i = some (record { size = 1; count = 1; pos = 1 }, 7)
usages contact_id i = some (record { size = 4; count = 1; pos = 4 }, 1)
usages scan_time i = none
usages contact_count i = none
usages input_mode i = none

abbrev device : Hid
device = record {
  locate = usages;
  locate_feature = λ u. none;
  items = none;
  report_size = λ id. 0;
  get_data = λ buf loc. byte_at buf loc.pos;
  get_udata = λ buf loc. byte_at buf loc.pos;
}

-- The axis of the touch pad is taken, not the mouse's.
picks : (digitizer_locate none (some device)).loc_touch_x.pos ≡ 9
unfolding digitizer_locate locate_from locate_in_report find_in_report
picks = refl

digitizer_locate-InOneReport_example : InOneReport device (digitizer_locate none (some device))
digitizer_locate-InOneReport_example = digitizer_locate-InOneReport device none
