-- ===== src/Inputfs/Keyboard/Publishing.antt =====
-- Where the transitions of `inputfs_keyboard_diff_emit` of inputfs.c arrive: in the event ring, and in
-- the scancode ring of the bridge to kbdmux.
use awase.Base.{
  ℕ, ◌+◌, ◌^◌, ◌≤◌, ◌<◌, ◌≡◌, refl, ap, ◌∙◌, Bool, true, Option, some, List, [], ◌∷◌, ◌++◌, length,
  arith, length-append, append_assoc, append-nil, ◌%◌, ◌≢◌, ◌⊎◌, inl, inr, false, not, ◌==◌,
  if◌then◌else◌, if_split,
}
use mathlib.Core.Path.{subst}
use awase.Base.Bytes.{get_u32, get_le, put_le, u32}
use awase.Inputfs.Events.{InputEvent, Entry, Ring, publish}
use awase.Inputfs.Events.Publishing.{Shows, logged, publish-Shows, Shows-count}
use awase.Inputfs.Focus.{Focus, keyboard_session}
use awase.Inputfs.Kbdmux.{Softc, emit_at, intr_cb}
use awase.Inputfs.Kbdmux.Queue.{Holds}
use awase.Inputfs.Kbdmux.Scancodes.{scan_bytes, scan_all, emit_at-fits}
use awase.Inputfs.Keyboard.{Device, diff, key_event, dev_slot, bridge_poke, emit, diff_emit}

-- The entries of events with the clocks of the sequence numbers behind `n`.
unfoldable stamped : (ℕ → ℕ × ℕ) → ℕ → List InputEvent → List Entry
stamped clock n [] = []
stamped clock n (ev ∷ evs) =
    record { ts_ordering = (clock (n + 1)).0; ts_sync = (clock (n + 1)).1; event = ev }
    ∷ stamped clock (n + 1) evs

unfoldable events_of : (ℕ × Bool → InputEvent) → List (ℕ × Bool) → List InputEvent
events_of event [] = []
events_of event (t ∷ ts) = event t ∷ events_of event ts

emit-Shows :
    (clock : ℕ → ℕ × ℕ) (enabled : Bool) (event : ℕ × Bool → InputEvent) (log : List Entry)
    (ring : Ring) (bridge : Option Softc) (ts : List (ℕ × Bool))
    → length log + length ts < 2 ^ 64
    → Shows log ring
    → Shows
        (logged log (stamped clock ring.writer_seq (events_of event ts)))
        (emit clock enabled event ring bridge ts).0
unfolding emit stamped events_of logged
emit-Shows clock enabled event log ring bridge [] small h = h
emit-Shows clock enabled event log ring bridge (t ∷ ts) small h =
    let n : ℕ = ring.writer_seq in
    let entry : Entry = record {
      ts_ordering = (clock (n + 1)).0;
      ts_sync = (clock (n + 1)).1;
      event = event t;
    } in
    let ring1 : Ring = publish ring entry in
    let shows1 : Shows (entry ∷ log) ring1 = publish-Shows log ring entry (omega arith) h in
    let next : ring1.writer_seq ≡ n + 1 =
      omega (arith, Shows-count (entry ∷ log) ring1 shows1, Shows-count log ring h) in
    let bridge1 : Option Softc = bridge_poke enabled bridge t in
    subst
      (λ m.
        Shows (logged (entry ∷ log) (stamped clock m (events_of event ts)))
          (emit clock enabled event ring1 bridge1 ts).0)
      next (emit-Shows clock enabled event (entry ∷ log) ring1 bridge1 ts (omega arith) shows1)

Holds-task : (keys : List ℕ) (sc : Softc) → Holds keys sc → Holds keys (record sc { task = true })
unfolding Holds
Holds-task keys sc h = h

emit-bridge :
    (clock : ℕ → ℕ × ℕ) (event : ℕ × Bool → InputEvent) (ring : Ring) (keys : List ℕ) (sc : Softc)
    (ts : List (ℕ × Bool))
    → length keys + length (scan_all ts) ≤ 1024
    → Holds keys sc
    → (sc' : Softc) × (((emit clock true event ring (some sc) ts).1 ≡ some sc')
        × Holds (keys ++ scan_all ts) sc')
unfolding emit scan_all bridge_poke intr_cb
emit-bridge clock event ring keys sc [] room h = (sc, (refl, rw (append-nil keys) h))
emit-bridge clock event ring keys sc ((usage, is_down) ∷ ts) room h =
    let bytes : List ℕ = scan_bytes usage is_down in
    let size : length (bytes ++ scan_all ts) ≡ length bytes + length (scan_all ts) =
      length-append bytes (scan_all ts) in
    let both : length (keys ++ bytes) ≡ length keys + length bytes = length-append keys bytes in
    let sc1 : Softc = record (emit_at sc usage is_down) { task = true } in
    let next : Holds (keys ++ bytes) sc1 =
      Holds-task (keys ++ bytes) (emit_at sc usage is_down)
        (emit_at-fits keys sc usage is_down (omega arith) h) in
    let ring1 : Ring = publish ring (record {
      ts_ordering = (clock (ring.writer_seq + 1)).0;
      ts_sync = (clock (ring.writer_seq + 1)).1;
      event = event (usage, is_down);
    }) in
    let (sc', (same, held)) =
      emit-bridge clock event ring1 (keys ++ bytes) sc1 ts (omega arith) next in
    (sc', (same, rw (← append_assoc keys bytes (scan_all ts)) held))

-- The event of a transition: a `key_down` or a `key_up` with the usage at 0, 0xFFFFFFFF at 4, the
-- modifiers at 8 and the session at 12, 16 bytes in all.
pub record IsKeyEvent (slot modifiers session : ℕ) (t : ℕ × Bool) (ev : InputEvent) : Type 0 where
  role : ev.source_role ≡ 2
  named : ev.event_type ≡ (if t.1 then 1 else 2)
  device : ev.device_slot ≡ slot
  flags : ev.flags ≡ 0
  usage : get_u32 ev.payload 0 ≡ u32 t.0
  positional : get_u32 ev.payload 4 ≡ 0xFFFFFFFF
  mods : get_u32 ev.payload 8 ≡ u32 modifiers
  owner : get_u32 ev.payload 12 ≡ u32 session
  size : length ev.payload ≡ 16

-- An event for each transition, in their order.
abbrev pub AreKeyEvents : ℕ → ℕ → ℕ → List (ℕ × Bool) → List InputEvent → Type 0
AreKeyEvents slot modifiers session [] [] = Unit
AreKeyEvents slot modifiers session [] (ev ∷ evs) = ⊥
AreKeyEvents slot modifiers session (t ∷ ts) [] = ⊥
AreKeyEvents slot modifiers session (t ∷ ts) (ev ∷ evs) =
    IsKeyEvent slot modifiers session t ev × AreKeyEvents slot modifiers session ts evs

-- The session that has the keyboard: the word at 12 of a focus region that is cached and that no
-- writer is changing (the seqlock at 8 is even), else none.
pub HasKeyboard : Focus → ℕ → Type 0
HasKeyboard focus session =
    (focus.cache_valid ≡ true) × (get_u32 focus.buf 8 % 2 ≡ 0) × (session ≡ get_u32 focus.buf 12)
    ⊎ ((focus.cache_valid ≡ false) ⊎ (get_u32 focus.buf 8 % 2 ≡ 1)) × (session ≡ 0)

-- The slot of a device that has one, else 0xFFFF.
pub HasSlot : Device → ℕ → Type 0
HasSlot dev slot =
    (dev.state_slot ≢ 0xFF) × (slot ≡ dev.state_slot) ⊎ (dev.state_slot ≡ 0xFF) × (slot ≡ 0xFFFF)

keyboard_session-HasKeyboard : (focus : Focus) → HasKeyboard focus (keyboard_session focus)
unfolding keyboard_session HasKeyboard
keyboard_session-HasKeyboard focus =
    if_split (HasKeyboard focus) (not focus.cache_valid) _ _ (λ t. inr (inl (ground arith), refl))
      (λ f.
        if_split (HasKeyboard focus) ((get_u32 focus.buf 8 % 2) == 1) _ _
          (λ odd. inr (inr (ground arith), refl)) (λ even. inl (ground arith, ground arith, refl)))

dev_slot-HasSlot : (dev : Device) → HasSlot dev (dev_slot dev)
unfolding dev_slot HasSlot
dev_slot-HasSlot dev =
    if_split (HasSlot dev) (dev.state_slot == 0xFF) _ _ (λ t. inr (ground arith, refl))
      (λ f. inl (λ e. absurd (ground arith), refl))

key_event-IsKeyEvent :
    (slot modifiers session : ℕ) (t : ℕ × Bool)
    → IsKeyEvent slot modifiers session t (key_event slot modifiers session t)
unfolding key_event get_u32 get_le put_le
key_event-IsKeyEvent slot modifiers session (usage, is_down) = record {
  role = refl;
  named = refl;
  device = refl;
  flags = refl;
  usage = omega arith;
  positional = refl;
  mods = omega arith;
  owner = omega arith;
  size = refl;
}

events_of-AreKeyEvents :
    (slot modifiers session : ℕ) (ts : List (ℕ × Bool))
    → AreKeyEvents slot modifiers session ts (events_of (key_event slot modifiers session) ts)
unfolding events_of
events_of-AreKeyEvents slot modifiers session [] = tt
events_of-AreKeyEvents slot modifiers session (t ∷ ts) = (
  key_event-IsKeyEvent slot modifiers session t,
  events_of-AreKeyEvents slot modifiers session ts,
)

-- What a report's transitions leave in the event ring and in the bridge's ring.
pub record KeysArrive (clock : ℕ → ℕ × ℕ) (focus : Focus) (log : List Entry) (ring ring' : Ring)
    (dev dev' : Device) (waiting : List ℕ) (modifiers : ℕ) (ts : List (ℕ × Bool)) : Type 0 where
  slot : ℕ
  has_slot : HasSlot dev slot
  session : ℕ
  has_keyboard : HasKeyboard focus session
  evs : List InputEvent
  documented : AreKeyEvents slot modifiers session ts evs
  shown : Shows (logged log (stamped clock ring.writer_seq evs)) ring'
  bridge : Softc
  bridged : dev'.kbd_bridge ≡ some bridge
  held : Holds (waiting ++ scan_all ts) bridge

-- Where the ring shows its log and the sequence numbers do not wrap, and the bridge is on and has room
-- for the scancodes: a report's transitions are published in their order, each as one event in its
-- documented bytes, a `key_down` or a `key_up` with the slot of the device, the usage, the modifiers
-- and the session that the focus region gives the keyboard to (0 without one), and their scancodes are
-- added to the bridge's ring.
pub diff_emit-publishes :
    (clock : ℕ → ℕ × ℕ) (focus : Focus) (log : List Entry) (ring : Ring) (dev : Device)
    (bridge : Softc) (waiting : List ℕ) (modifiers : ℕ) (keys : List ℕ)
    → length log + length (diff dev modifiers keys) < 2 ^ 64
    → length waiting + length (scan_all (diff dev modifiers keys)) ≤ 1024
    → Shows log ring
    → dev.kbd_bridge ≡ some bridge
    → Holds waiting bridge
    → (let (ring', dev') = diff_emit clock true focus ring dev modifiers keys in
        KeysArrive clock focus log ring ring' dev dev' waiting modifiers (diff dev modifiers keys))
unfolding diff_emit
diff_emit-publishes clock focus log ring dev bridge waiting modifiers keys small room h has held =
    let event = key_event (dev_slot dev) modifiers (keyboard_session focus) in
    let ts = diff dev modifiers keys in
    let (bridge', (same, after)) = emit-bridge clock event ring waiting bridge ts room held in
    record {
      slot = dev_slot dev;
      has_slot = dev_slot-HasSlot dev;
      session = keyboard_session focus;
      has_keyboard = keyboard_session-HasKeyboard focus;
      evs = events_of event ts;
      documented = events_of-AreKeyEvents (dev_slot dev) modifiers (keyboard_session focus) ts;
      shown = emit-Shows clock true event log ring dev.kbd_bridge ts small h;
      bridge = bridge';
      bridged = ap (λ b. (emit clock true event ring b ts).1) has ∙ same;
      held = after;
    }
