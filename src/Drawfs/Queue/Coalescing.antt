-- ===== src/Drawfs/Queue/Coalescing.antt =====
-- Coalescing of SURFACE_PRESENTED events in the outbound queue.
use awase.Base.{
  ℕ, ◌≤◌, ◌<◌, ◌^◌, ◌≡◌, refl, List, [], ◌∷◌, ◌++◌, arith, some, none, true, false, length, All,
  take, drop, blit, blit-take-drop, length-blit, length-take, take-prefix, drop-prefix, ap, ◌∙◌,
  Bool-cases, inl, inr, Option-cases, Bool, not, ◌&&◌, ltb, ◌==◌, ◌⊎◌, sym, append_assoc,
  length-append,
}
use awase.Base.Bytes.{put_le, get_u16, get_u32, get_u64, length-put_le, get_le-put_le}
use awase.Drawfs.Proto.{read_msg_hdr}
use awase.Drawfs.Session.{Session, Event, Tunables, enoent}
use awase.Drawfs.Queue.{is_presented, set_cookie, coalesce_in, try_coalesce_presented}
use awase.Drawfs.Queue.Outbox.{Sized}
use awase.Drawfs.Queue.Accounting.{QueueInv, total_len, total_len-append}

abbrev IsQuiet : ℕ → Event → Type 0
IsQuiet surface_id ev = is_presented ev surface_id ≡ false

-- How the queue changes: the first event of the surface, and no other, gets the cookie.
pub record Coalesced (q q' : List Event) (surface_id cookie : ℕ) : Type 0 where
  pub before : List Event
  pub event : Event
  pub after : List Event
  pub old : q ≡ before ++ (event ∷ after)
  pub new : q' ≡ before ++ (set_cookie event cookie ∷ after)
  pub matching : is_presented event surface_id ≡ true
  pub first : All (IsQuiet surface_id) before

pub coalesce_in-none :
    (q : List Event) (surface_id cookie : ℕ)
    → coalesce_in q surface_id cookie ≡ none
    → All (IsQuiet surface_id) q
unfolding coalesce_in
coalesce_in-none [] surface_id cookie e = tt
coalesce_in-none (ev ∷ q) surface_id cookie e = elim (Bool-cases (is_presented ev surface_id)) [
  | inl hit ↦ absurd (ground arith)
  | inr miss ↦ (miss, coalesce_in-none q surface_id cookie (ground arith))
]

pub coalesce_in-some :
    (q q' : List Event) (surface_id cookie : ℕ)
    → coalesce_in q surface_id cookie ≡ some q'
    → Coalesced q q' surface_id cookie
unfolding coalesce_in
coalesce_in-some [] q' surface_id cookie e = absurd (ground arith)
coalesce_in-some (ev ∷ q) q' surface_id cookie e = elim (Bool-cases (is_presented ev surface_id)) [
  | inl hit ↦ record {
    before = [];
    event = ev;
    after = q;
    old = refl;
    new = ground arith;
    matching = hit;
    first = tt;
  }
  | inr miss ↦ elim (Option-cases (coalesce_in q surface_id cookie)) [
    | inl none' ↦ absurd (ground arith)
    | inr (r, found) ↦
        let c = coalesce_in-some q r surface_id cookie found in
        record {
          before = ev ∷ c.before;
          event = c.event;
          after = c.after;
          old = ap (◌∷◌ ev) c.old;
          new = ground (arith, ap (◌∷◌ ev) c.new);
          matching = c.matching;
          first = (miss, c.first);
        }
  ]
]

-- What a frame of a SURFACE_PRESENTED event keeps and what changes when its cookie is set.
pub record SameButCookie (ev ev' : Event) (cookie : ℕ) : Type 0 where
  pub same_len : ev'.len ≡ ev.len
  pub same_size : length ev'.bytes ≡ length ev.bytes
  pub same_front : take 40 ev'.bytes ≡ take 40 ev.bytes
  pub same_back : drop 48 ev'.bytes ≡ drop 48 ev.bytes
  pub new_cookie : get_u64 ev'.bytes 40 ≡ cookie

pub set_cookie-SameButCookie :
    (ev : Event) (cookie : ℕ)
    → 48 ≤ length ev.bytes
    → cookie < 2 ^ 64
    → SameButCookie ev (set_cookie ev cookie) cookie
unfolding set_cookie
set_cookie-SameButCookie ev cookie room fits = record {
  same_len = refl;
  same_size = length-blit ev.bytes 40 (put_le 8 cookie);
  same_front = rw (split, take-prefix 40 (take 40 ev.bytes) _ front);
  same_back =
      rw (split, ← append_assoc (take 40 ev.bytes) (put_le 8 cookie) (drop 48 ev.bytes))
        (drop-prefix 48 (take 40 ev.bytes ++ put_le 8 cookie) _ (
          omega (
            arith,
            length-append (take 40 ev.bytes) (put_le 8 cookie),
            front,
            length-put_le 8 cookie,
          )));
  new_cookie =
      unfold get_u64 in
      rw (split, drop-prefix 40 (take 40 ev.bytes) _ front)
        (get_le-put_le 8 cookie (drop 48 ev.bytes) fits);
}
  where
    front : length (take 40 ev.bytes) ≡ 40
    front = omega (arith, length-take 40 ev.bytes)

    split :
        blit ev.bytes 40 (put_le 8 cookie)
        ≡ take 40 ev.bytes ++ (put_le 8 cookie ++ drop 48 ev.bytes)
    split =
        rw (length-put_le 8 cookie) at
          (blit-take-drop ev.bytes 40 (put_le 8 cookie) (omega (arith, length-put_le 8 cookie)))

total_len-Coalesced :
    (q q' : List Event) (surface_id cookie : ℕ)
    → Coalesced q q' surface_id cookie
    → total_len q' ≡ total_len q
unfolding set_cookie
total_len-Coalesced q q' surface_id cookie c =
    rw (c.old, c.new)
      (total_len-append c.before (set_cookie c.event cookie ∷ c.after)
        ∙ sym (total_len-append c.before (c.event ∷ c.after)))

pub try_coalesce_presented-splits :
    (t : Tunables) (s : Session) (surface_id cookie : ℕ)
    → QueueInv t s
    → let (e, s') = try_coalesce_presented t s surface_id cookie in
      ((e ≡ 0)
        × Coalesced s.evq s'.evq surface_id cookie
        × (s' ≡ record s { evq = s'.evq })
        × QueueInv t s')
      ⊎ ((e ≡ enoent) × (s' ≡ s) × ((t.coalesce_events ≡ false) ⊎ All (IsQuiet surface_id) s.evq))
unfolding try_coalesce_presented
try_coalesce_presented-splits t s surface_id cookie inv = elim (Bool-cases t.coalesce_events) [
  | inr off ↦ rw (off, try_coalesce_presented) (inr (refl, refl, inl refl))
  | inl on ↦ elim (Option-cases (coalesce_in s.evq surface_id cookie)) [
    | inl missing ↦
        rw (on, missing, try_coalesce_presented)
          (inr (refl, refl, inr (coalesce_in-none s.evq surface_id cookie missing)))
    | inr (q, found) ↦
        let c = coalesce_in-some s.evq q surface_id cookie found in
        let same = total_len-Coalesced s.evq q surface_id cookie c in
        rw (on, found, try_coalesce_presented)
          (inl (refl, c, refl, record { exact = inv.exact ∙ sym same; bounded = inv.bounded }))
  ]
]

-- An event of a surface, by the documented bytes: long enough, of type 0x9002 at offset 16, and with the
-- surface at offset 32.
abbrev pub is_for : ℕ → Event → Bool
is_for id ev =
    not (ltb ev.len 48)
    && (get_u16 (drop 16 ev.bytes) 0 == 0x9002)
    && (get_u32 (drop 32 ev.bytes) 0 == id)

-- The first event of the surface, and no other, is one with the cookie in place of its own.
pub record Renewed (q q' : List Event) (surface_id cookie : ℕ) : Type 0 where
  pub before : List Event
  pub event : Event
  pub renewed : Event
  pub after : List Event
  pub old : q ≡ before ++ (event ∷ after)
  pub new : q' ≡ before ++ (renewed ∷ after)
  pub matching : is_for surface_id event ≡ true
  pub first : All (λ ev. is_for surface_id ev ≡ false) before
  pub kept : SameButCookie event renewed cookie

pub Sized-at :
    (before after : List Event) (ev : Event)
    → Sized (before ++ (ev ∷ after))
    → ev.len ≡ length ev.bytes
Sized-at [] after ev h = h.0
Sized-at (x ∷ before) after ev h = Sized-at before after ev h.1

pub is_presented-len : (ev : Event) (id : ℕ) → is_presented ev id ≡ true → 48 ≤ ev.len
unfolding is_presented
is_presented-len ev id e = ground arith

Coalesced-Renewed :
    (q q' : List Event) (surface_id cookie : ℕ)
    → Sized q
    → cookie < 2 ^ 64
    → Coalesced q q' surface_id cookie
    → Renewed q q' surface_id cookie
unfolding is_presented read_msg_hdr
Coalesced-Renewed q q' surface_id cookie sized fits c =
    let long : 48 ≤ length c.event.bytes = omega (
      arith,
      is_presented-len c.event surface_id c.matching,
      Sized-at c.before c.after c.event (rw c.old at sized),
    ) in
    record {
      before = c.before;
      event = c.event;
      renewed = set_cookie c.event cookie;
      after = c.after;
      old = c.old;
      new = c.new;
      matching = c.matching;
      first = c.first;
      kept = set_cookie-SameButCookie c.event cookie long fits;
    }

abbrev pub Coalesces : Tunables → Session → ℕ → ℕ → ℕ → Session → Type 0
Coalesces t s surface_id cookie e s' =
    ((e ≡ 0)
      × Renewed s.evq s'.evq surface_id cookie
      × (s' ≡ record s { evq = s'.evq })
      × QueueInv t s')
    ⊎ ((e ≡ enoent)
        × (s' ≡ s)
        × ((t.coalesce_events ≡ false) ⊎ All (λ ev. is_for surface_id ev ≡ false) s.evq))

-- For a session whose queue's accounts are exact and whose events have the length of their bytes, and a
-- cookie of 64 bits: either the first SURFACE_PRESENTED event of the surface, and nothing else in the
-- session, gets the cookie, at its place of eight bytes and nowhere else, the accounts staying exact,
-- or the session stays as it is, and that only if coalescing is off or no such event is queued.
pub try_coalesce_presented_cases :
    (t : Tunables) (s : Session) (surface_id cookie : ℕ)
    → QueueInv t s
    → Sized s.evq
    → cookie < 2 ^ 64
    → Coalesces t s surface_id cookie
        (try_coalesce_presented t s surface_id cookie).0
        (try_coalesce_presented t s surface_id cookie).1
unfolding is_presented read_msg_hdr
try_coalesce_presented_cases t s surface_id cookie inv sized fits =
    elim (try_coalesce_presented-splits t s surface_id cookie inv) [
      | inl (e, c, same, accounts) ↦
          inl (e, Coalesced-Renewed s.evq _ surface_id cookie sized fits c, same, accounts)
      | inr (e, same, why) ↦ inr (e, same, why)
    ]
