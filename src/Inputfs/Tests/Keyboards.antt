-- ===== src/Inputfs/Tests/Keyboards.antt =====
-- A keyboard report of inputfs.c and a pointer event at concrete inputs, and the theorems applied there.
use awase.Base.{
  ℕ, ◌+◌, ◌*◌, ◌%◌, ◌≤◌, ltb, ◌&&◌, ◌<◌, ◌^◌, ◌≡◌, refl, Bool, true, false, some, List, [], ◌∷◌,
  ◌++◌, length, replicate, arith, All,
}
use awase.Base.Bytes.{get_u16, get_u32, get_le}
use awase.Inputfs.Events.{Entry, init_ring}
use awase.Inputfs.Events.Publishing.{init_ring-Shows}
use awase.Inputfs.Focus.{Focus, resolve_pointer, first_hit, is_hit, surface_at, less_i32}
use awase.Inputfs.Focus.Routing.{Found, resolve_pointer-Found}
use awase.Inputfs.Kbdmux.Scancodes.{scan_all, scan_bytes, entry_bytes}
use awase.Inputfs.Keyboard.{
  Device, diff, modifier_changes, key_changes, changed, has_bit, key_in_set, diff_emit,
}
use awase.Inputfs.Keyboard.Replay.{held, replay, replay-diff}
use awase.Inputfs.Keyboard.Publishing.{KeysArrive, diff_emit-publishes}
use awase.Inputfs.Tests.Rings.{empty_ring, empty_ring-Holds}
use Prim.Native.Nat.{min}

-- A keyboard that held the left control key and an A.
abbrev keyboard : Device
keyboard = record {
  state_slot = 2;
  prev_modifiers = 1;
  prev_keys = 4 ∷ 0 ∷ 0 ∷ 0 ∷ 0 ∷ 0 ∷ [];
  kbd_bridge = some empty_ring;
}

-- The left shift key and a B.
abbrev keys : List ℕ
keys = 5 ∷ 0 ∷ 0 ∷ 0 ∷ 0 ∷ 0 ∷ []

transitions : diff keyboard 2 keys ≡ (0xE0, false) ∷ (4, false) ∷ (0xE1, true) ∷ (5, true) ∷ []
unfolding diff modifier_changes key_changes changed has_bit key_in_set
transitions = refl

replay-diff_example :
    replay 5 (held keyboard.prev_modifiers keyboard.prev_keys 5) (diff keyboard 2 keys)
    ≡ held 2 keys 5
replay-diff_example =
    replay-diff keyboard 2 keys 5
      (omega arith, (omega arith, (omega arith, (omega arith, (omega arith, (omega arith, tt))))))
      (omega arith, (omega arith, (omega arith, (omega arith, (omega arith, (omega arith, tt))))))

abbrev ticks : ℕ → ℕ × ℕ
ticks n = (n * 1000, 0)

-- No compositor has written the focus region.
abbrev no_focus : Focus
no_focus = record { cache_valid = false; buf = [] }

transitions-few : length {A = Entry} [] + length (diff keyboard 2 keys) < 2 ^ 64
transitions-few = rw transitions (omega arith)

bytes-fit : length {A = ℕ} [] + length (scan_all (diff keyboard 2 keys)) ≤ 1024
unfolding scan_all scan_bytes entry_bytes
bytes-fit = rw transitions (omega arith)

diff_emit-publishes_example :
    let (ring', dev') = diff_emit ticks true no_focus init_ring keyboard 2 keys in
    KeysArrive ticks no_focus [] init_ring ring' keyboard dev' [] 2 (diff keyboard 2 keys)
diff_emit-publishes_example =
    diff_emit-publishes ticks no_focus [] init_ring keyboard empty_ring [] 2 keys transitions-few
      bytes-fit init_ring-Shows refl empty_ring-Holds

-- A focus region with one surface of session 7, from (10, 20) on, 100 wide and 50 high.
abbrev focus : Focus
focus = record {
  cache_valid = true;
  buf =
      replicate 8 0
      ++ (replicate 12 0
          ++ (1 ∷ 0 ∷ replicate 42 0
              ++ (7 ∷ 0 ∷ 0 ∷ 0 ∷ 10 ∷ 0 ∷ 0 ∷ 0 ∷ 20 ∷ 0 ∷ 0 ∷ 0 ∷ 100 ∷ 0 ∷ 0 ∷ 0 ∷ 50 ∷ 0 ∷ 0 ∷ 0
                  ∷ [])));
}

bytes_only : List ℕ → Bool
bytes_only [] = true
bytes_only (b ∷ bs) = let rest = bytes_only bs in ltb b 256 && rest

bytes_only-All : (bs : List ℕ) → bytes_only bs ≡ true → All (λ b. b < 256) bs
unfolding bytes_only
bytes_only-All [] h = tt
bytes_only-All (b ∷ bs) h = (ground arith, bytes_only-All bs (ground arith))

focus-bytes : bytes_only focus.buf ≡ true
unfolding bytes_only
focus-bytes = refl

focus-header : (get_u32 focus.buf 8 % 2 ≡ 0) × (get_u32 focus.buf 16 ≡ 0)
unfolding get_u32 get_le
focus-header = (refl, refl)

hits : resolve_pointer focus 109 69 ≡ 7
unfolding resolve_pointer first_hit is_hit surface_at less_i32 get_u32 get_u16 get_le
hits = refl

resolve_pointer-Found_example :
    Found focus.buf 109 69 0 (min 256 (get_u16 focus.buf 20)) (resolve_pointer focus 109 69)
resolve_pointer-Found_example =
    resolve_pointer-Found focus 109 69 (bytes_only-All focus.buf focus-bytes) (omega arith)
      (omega arith) refl focus-header.0 focus-header.1
