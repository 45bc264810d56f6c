-- ===== src/Inputfs/Focus.antt =====
-- The focus region of inputfs.c, a cached copy of what the compositor wrote: which session has the
-- keyboard (`inputfs_focus_keyboard_session`) and which one gets a pointer event
-- (`inputfs_focus_resolve_pointer`). The buffer has a header of 64 bytes (seqlock at 8, keyboard
-- focus 12, pointer grab 16, surface count 20) and 256 slots of 20 bytes (session 0, x 4, y 8,
-- width 12, height 16). An `int32_t` is its bit pattern.
pub mod Routing
use awase.Base.{
  ℕ, zero, suc, ◌+◌, ◌-◌, ◌*◌, ◌%◌, ◌^◌, Bool, true, false, not, List, [], ◌∷◌, ltb, leb, ◌==◌,
  ◌&&◌, ◌||◌, if◌then◌else◌,
}
use awase.Base.Bytes.{get_u16, get_u32, u32}

abbrev pub focus_slot_count : ℕ
focus_slot_count = 256

pub record Focus : Type 0 where
  pub cache_valid : Bool
  pub buf : List ℕ

-- `x < y` on two `int32_t`.
unfoldable pub less_i32 : ℕ → ℕ → Bool
less_i32 x y = ltb (u32 (x + 2 ^ 31)) (u32 (y + 2 ^ 31))

-- The unsigned difference.
abbrev pub minus_u32 : ℕ → ℕ → ℕ
minus_u32 x y = u32 (x + 2 ^ 32 - y)

unfoldable pub keyboard_session : Focus → ℕ
keyboard_session focus =
    if not focus.cache_valid
    then 0
    else if (get_u32 focus.buf 8 % 2) == 1
    then 0
    else get_u32 focus.buf 12

pub record FocusSurface : Type 0 where
  pub session_id : ℕ
  pub x : ℕ
  pub y : ℕ
  pub width : ℕ
  pub height : ℕ

unfoldable pub surface_at : List ℕ → ℕ → FocusSurface
surface_at buf i =
    let off = 64 + i * 20 in
    record {
      session_id = get_u32 buf off;
      x = get_u32 buf (off + 4);
      y = get_u32 buf (off + 8);
      width = get_u32 buf (off + 12);
      height = get_u32 buf (off + 16);
    }

-- Whether the loop stops at a surface.
unfoldable pub is_hit : ℕ → ℕ → FocusSurface → Bool
unfolding less_i32
is_hit x y s =
    not (s.session_id == 0)
    && not (less_i32 x s.x || less_i32 y s.y)
    && ltb (minus_u32 x s.x) s.width
    && ltb (minus_u32 y s.y) s.height

-- The loop over the slots, from slot `i` on for `n` slots.
unfoldable pub first_hit : List ℕ → ℕ → ℕ → ℕ → ℕ → ℕ
unfolding is_hit surface_at
first_hit buf x y i zero = 0
first_hit buf x y i (suc n) =
    let rest = first_hit buf x y (i + 1) n in
    let s = surface_at buf i in if is_hit x y s then s.session_id else rest

unfoldable pub resolve_pointer : Focus → ℕ → ℕ → ℕ
unfolding first_hit
resolve_pointer focus x y =
    let grab = get_u32 focus.buf 16 in
    let count = get_u16 focus.buf 20 in
    let hit =
      first_hit focus.buf x y 0 (if ltb focus_slot_count count then focus_slot_count else count) in
    if not focus.cache_valid
    then 0
    else if (get_u32 focus.buf 8 % 2) == 1
    then 0
    else if not (grab == 0)
    then grab
    else hit
