-- ===== src/Inputfs/Keyboard.antt =====
-- The keyboard path of inputfs.c: `inputfs_keyboard_diff_emit` compares a report with the one before
-- and publishes a transition for each key that went up or down. The clocks at the publish of each
-- sequence number are an argument.
pub mod Replay
pub mod Publishing
use awase.Base.{
  ℕ, zero, suc, ◌+◌, ◌-◌, ◌*◌, ◌/◌, ◌%◌, ◌^◌, Bool, true, false, not, Option, none, some, List, [],
  ◌∷◌, ◌++◌, ltb, leb, ◌==◌, ◌&&◌, ◌||◌, if◌then◌else◌,
}
use awase.Base.Bytes.{put_le}
use awase.Inputfs.Events.{InputEvent, Entry, Ring, publish}
use awase.Inputfs.Focus.{Focus, keyboard_session}
use awase.Inputfs.Kbdmux.{Softc, intr_cb}

-- The part of `struct inputfs_softc` that the keyboard path uses.
pub record Device : Type 0 where
  pub state_slot : ℕ
  pub prev_modifiers : ℕ
  pub prev_keys : List ℕ
  pub kbd_bridge : Option Softc

unfoldable pub key_in_set : ℕ → List ℕ → Bool
key_in_set usage [] = leb usage 3
key_in_set usage (k ∷ keys) =
    let rest = key_in_set usage keys in leb usage 3 || (k == usage) || rest

-- Whether a bit of a byte is set.
unfoldable pub has_bit : ℕ → ℕ → Bool
has_bit mask bit = ((mask / 2 ^ bit) % 2) == 1

abbrev pub bits : List ℕ
bits = 0 ∷ 1 ∷ 2 ∷ 3 ∷ 4 ∷ 5 ∷ 6 ∷ 7 ∷ []

-- The bit of `mod_changed`.
unfoldable pub changed : ℕ → ℕ → ℕ → Bool
unfolding has_bit
changed prev new bit =
    (has_bit prev bit && not (has_bit new bit)) || (not (has_bit prev bit) && has_bit new bit)

-- The loop over the modifier bits, where `has` is the report that has the key down.
unfoldable pub modifier_changes : ℕ → ℕ → ℕ → Bool → List ℕ → List (ℕ × Bool)
unfolding has_bit changed
modifier_changes prev new has is_down [] = []
modifier_changes prev new has is_down (bit ∷ more) =
    let rest = modifier_changes prev new has is_down more in
    if not (changed prev new bit) || not (has_bit has bit)
    then rest
    else (0xE0 + bit, is_down) ∷ rest

-- The loop over the keys of one report, for those that the other does not have.
unfoldable pub key_changes : List ℕ → Bool → List ℕ → List (ℕ × Bool)
unfolding key_in_set
key_changes other is_down [] = []
key_changes other is_down (usage ∷ more) =
    let rest = key_changes other is_down more in
    if (usage == 0) || leb usage 3 || key_in_set usage other then rest else (usage, is_down) ∷ rest

-- The four loops, in their order.
unfoldable pub diff : Device → ℕ → List ℕ → List (ℕ × Bool)
unfolding modifier_changes key_changes
diff sc modifiers keys =
    let prev = sc.prev_modifiers in
    modifier_changes prev modifiers prev false bits
    ++ (key_changes keys false sc.prev_keys
        ++ (modifier_changes prev modifiers modifiers true bits
            ++ key_changes sc.prev_keys true keys))

-- The event of a transition.
unfoldable pub key_event : ℕ → ℕ → ℕ → ℕ × Bool → InputEvent
key_event dev_slot modifiers session (usage, is_down) = record {
  source_role = 2;
  event_type = if is_down then 1 else 2;
  device_slot = dev_slot;
  flags = 0;
  payload = put_le 4 usage ++ (put_le 4 0xFFFFFFFF ++ (put_le 4 modifiers ++ put_le 4 session));
}

unfoldable pub bridge_poke : Bool → Option Softc → ℕ × Bool → Option Softc
bridge_poke enabled bridge (usage, is_down) =
    if enabled then intr_cb bridge usage is_down else bridge

-- The publish and the poke of each transition.
unfoldable pub emit :
    (ℕ → ℕ × ℕ)
    → Bool
    → (ℕ × Bool → InputEvent)
    → Ring
    → Option Softc
    → List (ℕ × Bool)
    → Ring × Option Softc
unfolding bridge_poke
emit clock enabled event ring bridge [] = (ring, bridge)
emit clock enabled event ring bridge (t ∷ more) =
    let (ts_ordering, ts_sync) = clock (ring.writer_seq + 1) in
    let entry : Entry = record { ts_ordering = ts_ordering; ts_sync = ts_sync; event = event t } in
    emit clock enabled event (publish ring entry) (bridge_poke enabled bridge t) more

unfoldable pub dev_slot : Device → ℕ
dev_slot sc = if sc.state_slot == 0xFF then 0xFFFF else sc.state_slot

unfoldable pub diff_emit : (ℕ → ℕ × ℕ) → Bool → Focus → Ring → Device → ℕ → List ℕ → Ring × Device
unfolding emit diff key_event dev_slot
diff_emit clock enabled focus ring sc modifiers keys =
    let event = key_event (dev_slot sc) modifiers (keyboard_session focus) in
    let (ring', bridge') = emit clock enabled event ring sc.kbd_bridge (diff sc modifiers keys) in
    (ring', record sc { prev_modifiers = modifiers; prev_keys = keys; kbd_bridge = bridge' })
