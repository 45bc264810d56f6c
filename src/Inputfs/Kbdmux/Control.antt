-- ===== src/Inputfs/Kbdmux/Control.antt =====
-- `inputfs_kbd_sw_ioctl` of inputfs_kbdmux.c: what it refuses, and what it sets.
use awase.Base.{
  ℕ, ◌+◌, ◌*◌, ◌/◌, ◌%◌, ◌^◌, ◌≡◌, ◌≢◌, refl, ap, sym, ◌∙◌, ◌⊎◌, inl, inr, Bool, true, false, not,
  ◌&&◌, Option, none, some, arith, ◌==◌, if◌then◌else◌,
}
use native.Mathlib.Nat.{div-add-mod', mul-add-mod_self_right, mod-mod, mod-le}
use awase.Drawfs.Session.{einval}
use awase.Inputfs.Kbdmux.{
  Softc, Keyboard, Kbio, Command, kdgkbmode, kdskbmode, kdgetled, kdsetled, kdgkbstate, kdskbstate,
  kdsetrepeat, kdsetrad, pio_keymap, pio_keymapent, pio_deadkeymap, other, locks, no_locks,
  softc_ioctl, sw_ioctl,
}

-- An outcome that leaves the argument and the softc where it has an error.
KeepsOnError : Softc → ℕ → ℕ × ℕ × Softc → Type 0
KeepsOnError sc value (error, answer, sc') = error ≢ 0 → (answer ≡ value) × (sc' ≡ sc)

guarded-KeepsOnError :
    (refuses : Bool) (sc sc' : Softc) (error value : ℕ)
    → KeepsOnError sc value (if refuses then (error, value, sc) else (0, value, sc'))
unfolding KeepsOnError
guarded-KeepsOnError true sc sc' error value h = (refl, refl)
guarded-KeepsOnError false sc sc' error value h = absurd (h refl)

softc_ioctl-KeepsOnError :
    (k : Kbio) (sc : Softc) (cmd : Command) (value : ℕ)
    → KeepsOnError sc value (softc_ioctl k sc cmd value)
unfolding softc_ioctl KeepsOnError
softc_ioctl-KeepsOnError k sc kdgkbmode value = λ h. absurd (h refl)
softc_ioctl-KeepsOnError k sc kdskbmode value =
    guarded-KeepsOnError
      (not (value == k.k_xlate) && not (value == k.k_raw) && not (value == k.k_code)) sc
      (record sc { mode = value }) einval value
softc_ioctl-KeepsOnError k sc kdgetled value = λ h. absurd (h refl)
softc_ioctl-KeepsOnError k sc kdsetled value = λ h. absurd (h refl)
softc_ioctl-KeepsOnError k sc kdgkbstate value = λ h. absurd (h refl)
softc_ioctl-KeepsOnError k sc kdskbstate value =
    guarded-KeepsOnError (not (no_locks k value == 0)) sc
      (record sc { state = no_locks k sc.state + value }) einval value
softc_ioctl-KeepsOnError k sc kdsetrepeat value = λ h. (refl, refl)
softc_ioctl-KeepsOnError k sc kdsetrad value = λ h. (refl, refl)
softc_ioctl-KeepsOnError k sc pio_keymap value = λ h. (refl, refl)
softc_ioctl-KeepsOnError k sc pio_keymapent value = λ h. (refl, refl)
softc_ioctl-KeepsOnError k sc pio_deadkeymap value = λ h. (refl, refl)
softc_ioctl-KeepsOnError k sc other value = λ h. (refl, refl)

keyboard_ioctl-refused :
    (k : Kbio) (active : Bool) (count : ℕ) (sc : Option Softc) (cmd : Command) (value : ℕ)
    → (let kbd : Keyboard = record { active = active; kb_count = count; kb_data = sc } in
        let (error, answer, kbd') = sw_ioctl k kbd cmd value in
        error ≢ 0 → (answer ≡ value) × (kbd' ≡ kbd))
unfolding sw_ioctl KeepsOnError
keyboard_ioctl-refused k active count none cmd value h = (refl, refl)
keyboard_ioctl-refused k active count (some sc) cmd value h =
    let with_data : Option Softc → Keyboard =
      λ d. record { active = active; kb_count = count; kb_data = d } in
    let (same, kept) = softc_ioctl-KeepsOnError k sc cmd value h in
    (same, ap (λ sc'. with_data (some sc')) kept)

-- A command that fails changes neither the keyboard nor what the caller's argument points to.
pub sw_ioctl-refused :
    (k : Kbio) (kbd : Keyboard) (cmd : Command) (value : ℕ)
    → (sw_ioctl k kbd cmd value).0 ≢ 0
    → ((sw_ioctl k kbd cmd value).1 ≡ value) × ((sw_ioctl k kbd cmd value).2 ≡ kbd)
sw_ioctl-refused k kbd cmd value h =
    keyboard_ioctl-refused k kbd.active kbd.kb_count kbd.kb_data cmd value h

no_locks-multiple : (k : Kbio) (s : ℕ) → no_locks k s ≡ s / 2 ^ k.lock_bits * 2 ^ k.lock_bits
unfolding no_locks locks
no_locks-multiple k s = omega (arith, div-add-mod' s (2 ^ k.lock_bits))

-- The lock bits of a state that is put together, and its others.
locks-joined : (k : Kbio) (s v : ℕ) → locks k (no_locks k s + locks k v) ≡ locks k v
unfolding locks
locks-joined k s v =
    let m : ℕ = 2 ^ k.lock_bits in
    ap (λ n. (n + v % m) % m) (no_locks-multiple k s)
    ∙ mul-add-mod_self_right (s / m) m (v % m)
    ∙ mod-mod v m

no_locks-joined : (k : Kbio) (s v : ℕ) → no_locks k (no_locks k s + locks k v) ≡ no_locks k s
unfolding no_locks
no_locks-joined k s v =
    let same : locks k (no_locks k s + locks k v) ≡ locks k v = locks-joined k s v in omega arith

only_locks : (k : Kbio) (v : ℕ) → no_locks k v ≡ 0 → locks k v ≡ v
unfolding no_locks locks
only_locks k v h = omega (arith, mod-le v (2 ^ k.lock_bits))

-- Setting the lights, or the lock state where the bits are lock bits only, is seen by both queries
-- and leaves the other bits of the state, the mode and the ring.
pub sw_ioctl-locks :
    (k : Kbio) (sc : Softc) (cmd : Command) (value : ℕ)
    → (cmd ≡ kdsetled) ⊎ (cmd ≡ kdskbstate) × (no_locks k value ≡ 0)
    → (let (error, answer, sc') = softc_ioctl k sc cmd value in
        (error ≡ 0)
        × ((softc_ioctl k sc' kdgetled 0).1 ≡ locks k value)
        × ((softc_ioctl k sc' kdgkbstate 0).1 ≡ locks k value)
        × (no_locks k sc'.state ≡ no_locks k sc.state)
        × (record sc' { state = sc.state } ≡ sc))
unfolding softc_ioctl
sw_ioctl-locks k sc cmd value (inl is_led) = rw is_led (
  refl,
  locks-joined k sc.state value,
  locks-joined k sc.state value,
  no_locks-joined k sc.state value,
  refl,
)
sw_ioctl-locks k sc cmd value (inr (is_state, only)) =
    let allowed : (no_locks k value == 0) ≡ true = ground arith in
    let low : locks k value ≡ value = only_locks k value only in
    let state : no_locks k sc.state + locks k value ≡ no_locks k sc.state + value =
      ap (◌+◌ (no_locks k sc.state)) low in
    rw (is_state, allowed)
      (
        refl,
        ap (locks k) (sym state) ∙ locks-joined k sc.state value,
        ap (locks k) (sym state) ∙ locks-joined k sc.state value,
        ap (no_locks k) (sym state) ∙ no_locks-joined k sc.state value,
        refl,
      )
