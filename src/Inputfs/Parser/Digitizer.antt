-- ===== src/Inputfs/Parser/Digitizer.antt =====
-- The fields that `inputfs_digitizer_locate` of inputfs_parser.c accepts.
use awase.Base.{
  ℕ, zero, suc, ◌+◌, ◌<◌, ◌≤◌, ◌≡◌, refl, ap, ◌∙◌, ◌⊎◌, false, Option, none, some, arith, ltb, ◌==◌,
  ◌&&◌, Bool-cases, inl, inr, Option-cases,
}
use awase.Inputfs.Parser.{
  Location, Usage, axis_x, axis_y, button_1, tip_switch, confidence, contact_id, scan_time,
  contact_count, Hid,
}
use awase.Inputfs.Parser.Touch.{
  DigitizerCache, find_in_report, same_report, locate_in_report, locate_from, digitizer_locate,
}

-- A location is empty, or an occurrence of a usage in a report, among the first eight.
unfoldable pub Occurs : Hid → Usage → ℕ → Location → Type 0
Occurs hid usage id loc =
    (loc.size ≡ 0) ⊎ ((idx : ℕ) × ((idx < 8) × (hid.locate usage idx ≡ some (loc, id))))

find_in_report-Occurs :
    (hid : Hid) (usage : Usage) (id idx n : ℕ)
    → idx + n ≤ 8
    → Occurs hid usage id (find_in_report hid usage id idx n)
unfolding Occurs find_in_report
find_in_report-Occurs hid usage id idx zero h = inl refl
find_in_report-Occurs hid usage id idx (suc n) h = elim (Option-cases (hid.locate usage idx)) [
  | inl none_left ↦ rw (find_in_report, none_left) (inl refl)
  | inr ((loc, loc_id), e) ↦ elim (Bool-cases (loc_id == id)) [
    | inl t ↦
        rw (find_in_report, e, t)
          (inr (idx, (omega arith, (e ∙ ap (λ m. some (loc, m)) (ground arith)))))
    | inr f ↦
        rw (find_in_report, e, f) (find_in_report-Occurs hid usage id (idx + 1) n (omega arith))
  ]
]

same_report-Occurs :
    (hid : Hid) (usage : Usage) (id : ℕ) → Occurs hid usage id (same_report id (hid.locate usage 0))
unfolding Occurs same_report
same_report-Occurs hid usage id = elim (Option-cases (hid.locate usage 0)) [
  | inl none_left ↦ rw (same_report, none_left) (inl refl)
  | inr ((loc, loc_id), e) ↦ elim (Bool-cases (loc_id == id)) [
    | inl t ↦
        let same : loc_id ≡ id = ground arith in
        rw (same_report, e, t) (inr (0, (omega arith, e ∙ ap (λ m. some (loc, m)) same)))
    | inr f ↦ rw (same_report, e, f) (inl refl)
  ]
]

-- The fields of a cache are those of one report, and a valid cache has the tip switch and both axes.
unfoldable pub InOneReport : Hid → DigitizerCache → Type 0
unfolding Occurs
InOneReport hid p =
    Occurs hid tip_switch p.report_id p.loc_tip_switch
    × Occurs hid confidence p.report_id p.loc_confidence
    × Occurs hid contact_id p.report_id p.loc_contact_id
    × Occurs hid axis_x p.report_id p.loc_touch_x
    × Occurs hid axis_y p.report_id p.loc_touch_y
    × Occurs hid scan_time p.report_id p.loc_scan_time
    × Occurs hid contact_count p.report_id p.loc_contact_count
    × Occurs hid button_1 p.report_id p.loc_touch_button
    × ((p.locations_valid ≡ false)
        ⊎ (0 < p.loc_tip_switch.size) × (0 < p.loc_touch_x.size) × (0 < p.loc_touch_y.size))

valid_cases : (a b c : ℕ) → (ltb 0 a && ltb 0 b && ltb 0 c ≡ false) ⊎ (0 < a) × (0 < b) × (0 < c)
valid_cases a b c = elim (Bool-cases (ltb 0 a && ltb 0 b && ltb 0 c)) [
  | inl t ↦ inr (ground arith, ground arith, ground arith)
  | inr f ↦ inl f
]

locate_from-InOneReport :
    (hid : Hid) (mode : Option (Location × ℕ × ℕ)) (tip : Option (Location × ℕ))
    → hid.locate tip_switch 0 ≡ tip
    → InOneReport hid (locate_from hid mode tip)
unfolding InOneReport Occurs locate_from locate_in_report
locate_from-InOneReport hid mode none e =
    (inl refl, inl refl, inl refl, inl refl, inl refl, inl refl, inl refl, inl refl, inl refl)
locate_from-InOneReport hid mode (some (tip, id)) e = (
  inr (0, (omega arith, e)),
  same_report-Occurs hid confidence id,
  same_report-Occurs hid contact_id id,
  find_in_report-Occurs hid axis_x id 0 8 (omega arith),
  find_in_report-Occurs hid axis_y id 0 8 (omega arith),
  same_report-Occurs hid scan_time id,
  same_report-Occurs hid contact_count id,
  find_in_report-Occurs hid button_1 id 0 8 (omega arith),
  valid_cases tip.size (find_in_report hid axis_x id 0 8).size
      (find_in_report hid axis_y id 0 8).size,
)

-- Every location that the cache of a touch pad has is the field of its usage in one report, that of the
-- tip switch; and a cache that is valid has the tip switch and both axes.
pub digitizer_locate-InOneReport :
    (hid : Hid) (mode : Option (Location × ℕ × ℕ))
    → InOneReport hid (digitizer_locate mode (some hid))
unfolding digitizer_locate
digitizer_locate-InOneReport hid mode =
    locate_from-InOneReport hid mode (hid.locate tip_switch 0) refl
