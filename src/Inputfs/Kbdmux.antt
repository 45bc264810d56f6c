-- ===== src/Inputfs/Kbdmux.antt =====
-- inputfs_kbdmux.c of inputfs/sys/dev/inputfs: a virtual keyboard that hands the key transitions of
-- inputfs to kbdmux as AT scancodes, through a ring of 1024 bytes with one writer and one reader.
pub mod Table
pub mod Queue
pub mod Scancodes
pub mod Decoding
pub mod Control
use awase.Base.{
  ℕ, zero, suc, ◌+◌, ◌-◌, ◌*◌, ◌/◌, ◌%◌, ◌^◌, Bool, true, false, not, Option, none, some, List, [],
  ◌∷◌, ltb, leb, ◌==◌, ◌&&◌, ◌||◌, if◌then◌else◌,
}
use awase.Base.Bytes.{u32}
use awase.Drawfs.Session.{einval, enodev}
use Table.{trtab, entry_at}

abbrev pub buf_size : ℕ
buf_size = 1024

-- The fields of `struct inputfs_kbd_softc` that the driver uses; `task` says that the deferred
-- notification is scheduled.
pub record Softc : Type 0 where
  pub input : ℕ → ℕ
  pub head : ℕ
  pub tail : ℕ
  pub mode : ℕ
  pub state : ℕ
  pub accents : ℕ
  pub task : Bool

-- The kernel's `keyboard_t`, as far as the driver uses it.
pub record Keyboard : Type 0 where
  pub active : Bool
  pub kb_count : ℕ
  pub kb_data : Option Softc

abbrev pub set_input : (ℕ → ℕ) → ℕ → ℕ → ℕ → ℕ
set_input input at key i = if i == at then key else input i

unfoldable pub put_key : Softc → ℕ → Softc
put_key sc key =
    if leb buf_size (u32 (sc.head + 2 ^ 32 - sc.tail))
    then sc
    else record sc { input = set_input sc.input (sc.head % buf_size) key; head = u32 (sc.head + 1) }

unfoldable pub get_key : Softc → Option ℕ × Softc
get_key sc =
    if sc.tail == sc.head
    then (none, sc)
    else (some (sc.input (sc.tail % buf_size)), record sc { tail = u32 (sc.tail + 1) })

unfoldable pub input_pending : Softc → Bool
input_pending sc = not (sc.tail == sc.head)

-- `scancode |= INPUTFS_KBD_SCAN_RELEASE` on a byte.
abbrev pub release_bit : ℕ → ℕ
release_bit scancode = if ltb scancode 128 then scancode + 128 else scancode

unfoldable pub emit_at : Softc → ℕ → Bool → Softc
unfolding put_key
emit_at sc hid_usage is_down =
    let entry = entry_at trtab hid_usage in
    let prefix = entry / 256 in
    let scancode = entry % 256 in
    let sc1 = if prefix == 0 then sc else put_key sc prefix in
    let byte = if is_down then scancode else release_bit scancode in
    if entry == 0 then sc else put_key sc1 byte

unfoldable pub intr_cb : Option Softc → ℕ → Bool → Option Softc
unfolding emit_at
intr_cb none hid_usage is_down = none
intr_cb (some sc) hid_usage is_down = some (record (emit_at sc hid_usage is_down) { task = true })

-- The task calls what kbdmux registered, if anything.
unfoldable pub notify_task : Option (Keyboard → Keyboard) → Keyboard → Keyboard
notify_task none kbd = kbd
notify_task (some kc_func) kbd = kc_func kbd

unfoldable pub sw_enable : Keyboard → ℕ × Keyboard
sw_enable kbd = (0, record kbd { active = true })

unfoldable pub sw_disable : Keyboard → ℕ × Keyboard
sw_disable kbd = (0, record kbd { active = false })

-- `inputfs_kbd_sw_read` and `inputfs_kbd_sw_read_char`, which differ in the number that they
-- return where there is nothing to read.
unfoldable pub read_from : Keyboard → Option ℕ × Softc → Option ℕ × Keyboard
read_from kbd (none, sc') = (none, kbd)
read_from kbd (some key, sc') =
    (some (key % 256), record kbd { kb_count = kbd.kb_count + 1; kb_data = some sc' })

unfoldable pub sw_read_char : Keyboard → Option ℕ × Keyboard
unfolding read_from get_key
sw_read_char kbd = elim kbd.kb_data [
  | none ↦ (none, kbd)
  | some sc ↦ if kbd.active then read_from kbd (get_key sc) else (none, kbd)
]

unfoldable pub sw_check_char : Keyboard → Bool
unfolding input_pending
sw_check_char kbd = elim kbd.kb_data [ none ↦ false | some sc ↦ kbd.active && input_pending sc ]

-- What the kernel's kbio.h and errno.h give a name to: the modes, the number of lock bits, which are
-- the lowest of the state, and ENOIOCTL, which is not zero.
pub record Kbio : Type 0 where
  pub k_xlate : ℕ
  pub k_raw : ℕ
  pub k_code : ℕ
  pub lock_bits : ℕ
  pub enoioctl : ℕ

-- The commands that the driver tells apart.
pub data Command : Type 0 where
  kdgkbmode : Command
  kdskbmode : Command
  kdgetled : Command
  kdsetled : Command
  kdgkbstate : Command
  kdskbstate : Command
  kdsetrepeat : Command
  kdsetrad : Command
  pio_keymap : Command
  pio_keymapent : Command
  pio_deadkeymap : Command
  other : Command

-- `state & LOCK_MASK`, and `state & ~LOCK_MASK`.
unfoldable pub locks : Kbio → ℕ → ℕ
locks k state = state % 2 ^ k.lock_bits

unfoldable pub no_locks : Kbio → ℕ → ℕ
unfolding locks
no_locks k state = state - locks k state

-- The command on the softc: the error, the caller's value afterwards, and the softc.
unfoldable pub softc_ioctl : Kbio → Softc → Command → ℕ → ℕ × ℕ × Softc
unfolding locks no_locks
softc_ioctl k sc kdgkbmode value = (0, sc.mode, sc)
softc_ioctl k sc kdskbmode value =
    if not (value == k.k_xlate) && not (value == k.k_raw) && not (value == k.k_code)
    then (einval, value, sc)
    else (0, value, record sc { mode = value })
softc_ioctl k sc kdgetled value = (0, locks k sc.state, sc)
softc_ioctl k sc kdsetled value =
    (0, value, record sc { state = no_locks k sc.state + locks k value })
softc_ioctl k sc kdgkbstate value = (0, locks k sc.state, sc)
softc_ioctl k sc kdskbstate value =
    if not (no_locks k value == 0)
    then (einval, value, sc)
    else (0, value, record sc { state = no_locks k sc.state + value })
softc_ioctl k sc kdsetrepeat value = (0, value, sc)
softc_ioctl k sc kdsetrad value = (0, value, sc)
softc_ioctl k sc pio_keymap value = (k.enoioctl, value, sc)
softc_ioctl k sc pio_keymapent value = (k.enoioctl, value, sc)
softc_ioctl k sc pio_deadkeymap value = (k.enoioctl, value, sc)
softc_ioctl k sc other value = (k.enoioctl, value, sc)

unfoldable pub sw_ioctl : Kbio → Keyboard → Command → ℕ → ℕ × ℕ × Keyboard
unfolding softc_ioctl
sw_ioctl k kbd cmd value = elim kbd.kb_data [
  | none ↦ (enodev, value, kbd)
  | some sc ↦
      let (error, answer, sc') = softc_ioctl k sc cmd value in
      (error, answer, record kbd { kb_data = some sc' })
]

unfoldable pub sw_clear_state : Keyboard → Keyboard
sw_clear_state kbd = elim kbd.kb_data [
  | none ↦ kbd
  | some sc ↦ record kbd { kb_data = some (record sc { state = 0; accents = 0 }) }
]
