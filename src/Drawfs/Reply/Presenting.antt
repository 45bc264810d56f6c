-- ===== src/Drawfs/Reply/Presenting.antt =====
-- `drawfs_reply_surface_present` of drawfs.c: how many SURFACE_PRESENTED events of a surface wait.
use awase.Base.{
  ℕ, zero, suc, ◌+◌, ◌≤◌, ◌<◌, ◌^◌, ◌≡◌, ◌≢◌, refl, List, [], ◌∷◌, ◌++◌, arith, length, take, drop,
  inl, inr, true, false, Bool-cases, ◌==◌, All, ap, sym, ◌∙◌, if◌then◌else◌,
}
use awase.Base.Bytes.{put_le, get_le, get_u16, get_u32, get_le-put_le}
use awase.Base.Memory.{get_le-take}
use awase.Drawfs.Proto.{read_msg_hdr, evt_surface_presented}
use awase.Drawfs.Session.{Session, Event, Tunables}
use awase.Drawfs.Queue.{is_presented, set_cookie}
use awase.Drawfs.Queue.Accounting.{QueueInv}
use awase.Drawfs.Queue.Coalescing.{
  is_for, Sized-at, is_presented-len, Coalesced, set_cookie-SameButCookie,
  try_coalesce_presented-splits,
}
use awase.Drawfs.Queue.Outbox.{Sized}
use awase.Drawfs.Reply.{send_reply, surface_presented_payload, notify_presented}
use awase.Drawfs.Reply.Framing.{CarriesReply, send_reply_cases}

-- How many events of a surface wait.
abbrev pub count_presented : ℕ → List Event → ℕ
count_presented id [] = 0
count_presented id (ev ∷ q) = (if is_presented ev id then 1 else 0) + count_presented id q

count_presented-append :
    (id : ℕ) (q r : List Event)
    → count_presented id (q ++ r) ≡ count_presented id q + count_presented id r
count_presented-append id [] r = omega arith
count_presented-append id (ev ∷ q) r = omega (arith, count_presented-append id q r)

count_presented-quiet :
    (id : ℕ) (q : List Event) → All (λ ev. is_presented ev id ≡ false) q → count_presented id q ≡ 0
count_presented-quiet id [] h = refl
count_presented-quiet id (ev ∷ q) h = rw h.0 (omega (arith, count_presented-quiet id q h.1))

drop-take : (k m : ℕ) (xs : List ℕ) → drop k (take (k + m) xs) ≡ take m (drop k xs)
drop-take zero m xs = let e : 0 + m ≡ m = omega arith in rw e refl
drop-take (suc k) m [] = let e : suc k + m ≡ suc (k + m) = omega arith in rw e (nothing m)
  where
    nothing : (j : ℕ) → ◌≡◌ {A = List ℕ} [] (take j [])
    nothing zero = refl
    nothing (suc j) = refl
drop-take (suc k) m (x ∷ xs) =
    let e : suc k + m ≡ suc (k + m) = omega arith in rw e (drop-take k m xs)

same_field :
    (xs ys : List ℕ) (k n m : ℕ)
    → n ≤ m
    → take (k + m) xs ≡ take (k + m) ys
    → get_le n (drop k xs) ≡ get_le n (drop k ys)
same_field xs ys k n m h e =
    sym (get_le-take n m (drop k xs) h)
    ∙ ap (get_le n) (sym (drop-take k m xs))
    ∙ ap (λ (zs : List ℕ). get_le n (drop k zs)) e
    ∙ ap (get_le n) (drop-take k m ys)
    ∙ get_le-take n m (drop k ys) h

-- A new cookie does not change whose event it is.
is_presented-set_cookie :
    (ev : Event) (id cookie : ℕ)
    → 48 ≤ length ev.bytes
    → cookie < 2 ^ 64
    → is_presented (set_cookie ev cookie) id ≡ is_presented ev id
unfolding is_presented read_msg_hdr get_u16 get_u32
is_presented-set_cookie ev id cookie long fits =
    let c = set_cookie-SameButCookie ev cookie long fits in
    let ev' = set_cookie ev cookie in
    let type' : get_le 2 (drop 16 ev'.bytes) ≡ get_le 2 (drop 16 ev.bytes) =
      same_field ev'.bytes ev.bytes 16 2 24 (omega arith) c.same_front in
    let id' : get_le 4 (drop 32 ev'.bytes) ≡ get_le 4 (drop 32 ev.bytes) =
      same_field ev'.bytes ev.bytes 32 4 8 (omega arith) c.same_front in
    rw (c.same_len, type', id') refl

-- An event that was built for a surface is no event of another.
built-other :
    (ev : Event) (frame_id surface_id cookie id : ℕ)
    → surface_id < 2 ^ 32
    → CarriesReply ev frame_id evt_surface_presented 0 (surface_presented_payload surface_id cookie)
    → id ≢ surface_id
    → is_presented ev id ≡ false
unfolding is_presented get_u32
built-other ev frame_id surface_id cookie id fits r other =
    let start : take 16 (drop 32 ev.bytes) ≡ surface_presented_payload surface_id cookie =
      unfold surface_presented_payload put_le in r.body in
    let named : get_le 4 (drop 32 ev.bytes) ≡ surface_id =
      sym (get_le-take 4 16 (drop 32 ev.bytes) (omega arith))
      ∙ ap (get_le 4) start
      ∙ unfold surface_presented_payload in get_le-put_le 4 surface_id _ fits in
    rw named (ground arith)

Coalesced-count :
    (q q' : List Event) (surface_id cookie id : ℕ)
    → Coalesced q q' surface_id cookie
    → Sized q
    → cookie < 2 ^ 64
    → count_presented id q' ≡ count_presented id q
Coalesced-count q q' surface_id cookie id c sized fits =
    let long : 48 ≤ length c.event.bytes = omega (
      arith,
      is_presented-len c.event surface_id c.matching,
      Sized-at c.before c.after c.event (rw c.old at sized),
    ) in
    rw
      (
        c.old,
        c.new,
        count_presented-append id c.before (c.event ∷ c.after),
        count_presented-append id c.before (set_cookie c.event cookie ∷ c.after),
        is_presented-set_cookie c.event id cookie long fits,
      )
      refl

one_more :
    (id : ℕ) (q : List Event) (ev : Event)
    → count_presented id (q ++ (ev ∷ [])) ≤ count_presented id q + 1
one_more id q ev = ground (arith, count_presented-append id q (ev ∷ []))

no_more :
    (id : ℕ) (q : List Event) (ev : Event)
    → is_presented ev id ≡ false
    → count_presented id (q ++ (ev ∷ [])) ≡ count_presented id q
no_more id q ev e = ground (arith, count_presented-append id q (ev ∷ []))

sent-count :
    (t : Tunables) (s : Session) (surface_id cookie id : ℕ)
    → surface_id < 2 ^ 32
    → s.next_out_frame_id < 2 ^ 32
    → All (λ ev. is_presented ev surface_id ≡ false) s.evq
    → count_presented id s.evq ≤ 1
    → count_presented id
        (send_reply t s evt_surface_presented 0 (surface_presented_payload surface_id cookie)).1.evq
      ≤ 1
sent-count t s surface_id cookie id fits num quiet most =
    elim (send_reply_cases t s evt_surface_presented 0 (surface_presented_payload surface_id cookie)
      (omega arith) (omega arith) num (unfold surface_presented_payload put_le in omega arith)) [
        | inl (_, same) ↦ rw same most
        | inr (_, _, (ev, queued, r)) ↦ rw queued (elim (Bool-cases (id == surface_id)) [
          | inl this ↦
              let e : id ≡ surface_id = ground arith in
              let none' : count_presented id s.evq ≡ 0 =
                rw e (count_presented-quiet surface_id s.evq quiet) in
              omega (arith, one_more id s.evq ev)
          | inr that ↦
              let other : id ≢ surface_id = ground arith in
              omega (
                arith,
                no_more id s.evq ev
                    (built-other ev s.next_out_frame_id surface_id cookie id fits r other),
              )
        ])
      ]

notify_presented-counted :
    (t : Tunables) (s : Session) (surface_id cookie id : ℕ)
    → t.coalesce_events ≡ true
    → surface_id < 2 ^ 32
    → cookie < 2 ^ 64
    → s.next_out_frame_id < 2 ^ 32
    → QueueInv t s
    → Sized s.evq
    → count_presented id s.evq ≤ 1
    → count_presented id (notify_presented t s surface_id cookie).evq ≤ 1
unfolding notify_presented
notify_presented-counted t s surface_id cookie id on sid fits num inv sized most =
    elim (try_coalesce_presented-splits t s surface_id cookie inv) [
      | inl (e, c, _, _) ↦ rw (e, Coalesced-count s.evq _ surface_id cookie id c sized fits) most
      | inr (e, same, why) ↦
          rw (e, same)
            (elim why [
              | inl off ↦ absurd (ground arith)
              | inr quiet ↦ sent-count t s surface_id cookie id sid num quiet most
            ])
    ]

-- How many events of a surface wait, by the documented bytes.
abbrev pub count_for : ℕ → List Event → ℕ
count_for id [] = 0
count_for id (ev ∷ q) = (if is_for id ev then 1 else 0) + count_for id q

count_for-presented : (id : ℕ) (q : List Event) → count_for id q ≡ count_presented id q
unfolding is_presented read_msg_hdr
count_for-presented id [] = refl
count_for-presented id (ev ∷ q) =
    ap (λ (n : ℕ). (if is_for id ev then 1 else 0) + n) (count_for-presented id q)

-- With coalescing on, the answer to a present keeps at most one SURFACE_PRESENTED event of each
-- surface in the queue, told by the documented bytes of the events, for a queue whose accounts are
-- exact and whose events have the length of their bytes, and for numbers of the width of their fields.
pub notify_presented-at_most_one :
    (t : Tunables) (s : Session) (surface_id cookie id : ℕ)
    → t.coalesce_events ≡ true
    → surface_id < 2 ^ 32
    → cookie < 2 ^ 64
    → s.next_out_frame_id < 2 ^ 32
    → QueueInv t s
    → Sized s.evq
    → count_for id s.evq ≤ 1
    → count_for id (notify_presented t s surface_id cookie).evq ≤ 1
notify_presented-at_most_one t s surface_id cookie id on sid fits num inv sized most =
    rw (count_for-presented id (notify_presented t s surface_id cookie).evq) (
      notify_presented-counted t s surface_id cookie id on sid fits num inv sized
        (rw (count_for-presented id s.evq) at most))
