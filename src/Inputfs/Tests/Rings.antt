-- ===== src/Inputfs/Tests/Rings.antt =====
-- Runs of the event ring, the focus region and the scancode ring at concrete inputs, and the theorems
-- applied at such inputs.
use awase.Base.{ℕ, ◌+◌, ◌≤◌, ◌≡◌, ◌≢◌, refl, Bool, true, false, List, [], ◌∷◌, length, arith}
use awase.Inputfs.Events.{Entry, publish_all, init_ring}
use awase.Inputfs.Events.Publishing.{Shows, logged, publish_all-Shows}
use awase.Inputfs.Kbdmux.{Softc, Kbio, kdskbmode, put_key, emit_at, softc_ioctl, sw_ioctl}
use awase.Inputfs.Kbdmux.Queue.{Holds}
use awase.Inputfs.Kbdmux.Scancodes.{
  with_ring, emit_all, scan_all, scan_bytes, entry_bytes, read_chars, read_chars-emit_all,
}
use awase.Inputfs.Kbdmux.Decoding.{decode, entries, is_pressable, decode-read_chars}
use awase.Inputfs.Kbdmux.Control.{sw_ioctl-refused}

abbrev attach_event : Entry
attach_event = record {
  ts_ordering = 1000;
  ts_sync = 0;
  event = record {
    source_role = 6;
    event_type = 1;
    device_slot = 3;
    flags = 0;
    payload = 2 ∷ 0 ∷ 0 ∷ 0 ∷ [];
  };
}

abbrev two_events : List Entry
two_events = attach_event ∷ attach_event ∷ []

publish_all-Shows_example : Shows (logged [] two_events) (publish_all init_ring two_events)
publish_all-Shows_example = publish_all-Shows two_events (omega arith)

-- A keyboard whose ring is empty, with its counters about to wrap.
abbrev pub empty_ring : Softc
empty_ring = record {
  input = λ i. 0;
  head = 4294967295;
  tail = 4294967295;
  mode = 1;
  state = 0;
  accents = 0;
  task = false;
}

pub empty_ring-Holds : Holds [] empty_ring
unfolding Holds
empty_ring-Holds = (refl, omega arith, omega arith, tt)

-- A left shift, an A, and an arrow key, whose scancode has a prefix.
abbrev presses : List (ℕ × Bool)
presses = (0xE1, true) ∷ (4, true) ∷ (0x52, true) ∷ (4, false) ∷ (0xE1, false) ∷ []

presses-bytes : scan_all presses ≡ 42 ∷ 30 ∷ 0xE0 ∷ 72 ∷ 158 ∷ 170 ∷ []
unfolding scan_all scan_bytes entry_bytes
presses-bytes = refl

presses-fit : length (scan_all presses) ≤ 1024
unfolding scan_all scan_bytes entry_bytes
presses-fit = omega arith

read_chars-emit_all_example :
    let (bytes, kbd) =
      read_chars (length (scan_all presses)) (with_ring 0 (emit_all empty_ring presses)) in
    (bytes ≡ scan_all presses) × (kbd.kb_count ≡ 0 + length (scan_all presses))
read_chars-emit_all_example =
    read_chars-emit_all empty_ring 0 presses (length (scan_all presses)) empty_ring-Holds
      presses-fit (omega arith)

presses_pressable :
    (is_pressable 0xE1 ≡ true) × (is_pressable 4 ≡ true) × (is_pressable 0x52 ≡ true)
unfolding is_pressable
presses_pressable = (refl, refl, refl)

decode-read_chars_example :
    decode 0 (read_chars 10 (with_ring 0 (emit_all empty_ring presses))).0 ≡ entries presses
decode-read_chars_example =
    let (shift, a, up) = presses_pressable in
    decode-read_chars empty_ring 0 presses 10 empty_ring-Holds (omega arith) (omega arith)
      (shift, (a, (up, (a, (shift, tt)))))

-- The press of usage 0x90 gives the same byte as its release, and as the release of Escape.
ambiguous :
    (scan_bytes 0x90 true ≡ scan_bytes 0x90 false) × (scan_bytes 0x90 true ≡ scan_bytes 0x29 false)
unfolding scan_bytes entry_bytes
ambiguous = (refl, refl)

-- A ring with room for one byte keeps the prefix of an arrow key and drops its scancode.
abbrev nearly_full : Softc
nearly_full = record empty_ring { head = 1022 }

splits : (emit_at nearly_full 0x52 true).head ≡ 1023
unfolding emit_at put_key
splits = refl

abbrev kbio : Kbio
kbio = record { k_xlate = 1; k_raw = 0; k_code = 2; lock_bits = 3; enoioctl = 3 }

bad_mode : (sw_ioctl kbio (with_ring 0 empty_ring) kdskbmode 9).0 ≢ 0
unfolding sw_ioctl softc_ioctl
bad_mode = λ e. absurd (omega arith)

sw_ioctl-refused_example :
    ((sw_ioctl kbio (with_ring 0 empty_ring) kdskbmode 9).1 ≡ 9)
    × ((sw_ioctl kbio (with_ring 0 empty_ring) kdskbmode 9).2 ≡ with_ring 0 empty_ring)
sw_ioctl-refused_example = sw_ioctl-refused kbio (with_ring 0 empty_ring) kdskbmode 9 bad_mode
