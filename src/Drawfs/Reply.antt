-- ===== src/Drawfs/Reply.antt =====
-- The replies of drawfs.c, one function to each `drawfs_reply_*`, on top of `drawfs_send_reply`.
-- The code is that of a kernel built without DRM, as its Makefile does by default.
pub mod Framing
pub mod Presenting
use awase.Base.{
  ℕ, ◌+◌, List, [], ◌++◌, Bool, ltb, leb, ◌==◌, ◌&&◌, ◌||◌, not, if◌then◌else◌, Option, none, some,
  length,
}
use awase.Base.Bytes.{u32, put_le, get_u32, get_u64}
use awase.Drawfs.Proto.{
  rpl_hello, rpl_display_list, rpl_display_open, rpl_surface_create, rpl_surface_destroy,
  rpl_surface_present, rpl_error, evt_surface_presented,
}
use awase.Drawfs.Frame.{frame_build}
use awase.Drawfs.Session.{Session, Tunables, State, einval, enoent, enodev}
use awase.Drawfs.Queue.{enqueue_event, try_coalesce_presented}
use awase.Drawfs.Surface.{lookup, create, destroy, Created}

-- What the display functions ask of the EFI framebuffer: whether it is there, and its size.
pub record Display : Type 0 where
  pub available : Bool
  pub width : ℕ
  pub height : ℕ

unfoldable pub send_reply : Tunables → Session → ℕ → ℕ → List ℕ → ℕ × Session
send_reply t s msg_type msg_id payload =
    let (frame, frame_len) = frame_build s.next_out_frame_id msg_type msg_id payload in
    enqueue_event t (record s { next_out_frame_id = u32 (s.next_out_frame_id + 1) }) frame frame_len

-- struct drawfs_rpl_error
unfoldable pub error_payload : ℕ → ℕ → List ℕ
error_payload err_code err_offset = put_le 4 err_code ++ (put_le 4 0 ++ put_le 4 err_offset)

unfoldable pub reply_error : Tunables → Session → ℕ → ℕ → ℕ → ℕ × Session
reply_error t s msg_id err_code err_offset =
    send_reply t s rpl_error msg_id (error_payload err_code err_offset)

-- struct drawfs_rpl_hello
unfoldable pub hello_payload : List ℕ
hello_payload = put_le 4 0 ++ (put_le 2 1 ++ (put_le 2 0 ++ (put_le 4 0 ++ put_le 4 0)))

unfoldable pub reply_hello : Tunables → Session → ℕ → ℕ × Session
reply_hello t s msg_id = send_reply t s rpl_hello msg_id hello_payload

-- The status, the count, and the description of the one display.
unfoldable pub display_list_payload : Display → List ℕ
display_list_payload d =
    put_le 4 0
    ++ (put_le 4 1
        ++ (put_le 4 1
            ++ (put_le 4 (if d.available then d.width else 1920)
                ++ (put_le 4 (if d.available then d.height else 1080)
                    ++ (put_le 4 60000 ++ put_le 4 0)))))

unfoldable pub reply_display_list : Tunables → Display → Session → ℕ → ℕ × Session
reply_display_list t d s msg_id = send_reply t s rpl_display_list msg_id (display_list_payload d)

-- struct drawfs_display_open_rep
unfoldable pub display_open_payload : ℕ → ℕ → ℕ → List ℕ
display_open_payload status display_handle active_display_id =
    put_le 4 status ++ (put_le 4 display_handle ++ put_le 4 active_display_id)

-- Binding the session to a display, under the lock.
unfoldable pub bind_display : Session → ℕ → Session
bind_display s display_id =
    let bound = record s { active_display_id = display_id } in
    if s.active_display_handle == 0
    then record bound {
      active_display_handle = s.next_display_handle;
      next_display_handle = u32 (s.next_display_handle + 1);
    }
    else bound

unfoldable pub reply_display_open : Tunables → Session → ℕ → List ℕ → ℕ → ℕ × Session
reply_display_open t s msg_id payload payload_len =
    if ltb payload_len 4
    then send_reply t s rpl_display_open msg_id (display_open_payload einval 0 0)
    else if not (get_u32 payload 0 == 1)
    then send_reply t s rpl_display_open msg_id (display_open_payload enodev 0 0)
    else let s' = bind_display s (get_u32 payload 0) in
      send_reply t s' rpl_display_open msg_id
        (display_open_payload 0 s'.active_display_handle s'.active_display_id)

-- struct drawfs_surface_create_rep
unfoldable pub surface_create_payload : Created → List ℕ
surface_create_payload r =
    put_le 4 r.error
    ++ (put_le 4 r.surface_id ++ (put_le 4 r.stride_bytes ++ put_le 4 r.bytes_total))

unfoldable pub reply_surface_create : Tunables → Session → ℕ → List ℕ → ℕ → ℕ × Session
reply_surface_create t s msg_id payload payload_len =
    if ltb payload_len 16
    then send_reply t s rpl_surface_create msg_id (
        surface_create_payload
          (record { error = einval; surface_id = 0; stride_bytes = 0; bytes_total = 0 }))
    else let (r, s') = create t s (get_u32 payload 0) (get_u32 payload 4) (get_u32 payload 8) in
      send_reply t s' rpl_surface_create msg_id (surface_create_payload r)

-- struct drawfs_surface_destroy_rep
unfoldable pub surface_destroy_payload : ℕ → ℕ → List ℕ
surface_destroy_payload status surface_id = put_le 4 status ++ put_le 4 surface_id

-- A reply, on a state whose counters it does not touch.
abbrev pub with_session : State → ℕ × Session → ℕ × State
with_session st (e, s) = (e, record st { session = s })

unfoldable pub reply_surface_destroy : Tunables → State → ℕ → List ℕ → ℕ → ℕ × State
reply_surface_destroy t st msg_id payload payload_len =
    if ltb payload_len 4
    then with_session st
        (send_reply t st.session rpl_surface_destroy msg_id (surface_destroy_payload einval 0))
    else let (err, st') = destroy st (get_u32 payload 0) in
      with_session st' (
        send_reply t st'.session rpl_surface_destroy msg_id
          (surface_destroy_payload err (get_u32 payload 0)))

-- struct drawfs_rpl_surface_present and struct drawfs_evt_surface_presented
unfoldable pub surface_present_payload : ℕ → ℕ → ℕ → List ℕ
surface_present_payload status surface_id cookie =
    put_le 4 status ++ (put_le 4 surface_id ++ put_le 8 cookie)

unfoldable pub surface_presented_payload : ℕ → ℕ → List ℕ
surface_presented_payload surface_id cookie = put_le 4 surface_id ++ (put_le 4 0 ++ put_le 8 cookie)

-- The two encodings of the request: its surface and its cookie, if it is long enough.
unfoldable pub read_present_req : List ℕ → ℕ → Option (ℕ × ℕ)
read_present_req payload payload_len =
    if leb 16 payload_len
    then some (get_u32 payload 0, get_u64 payload 8)
    else if leb 12 payload_len
    then some (get_u32 payload 0, get_u64 payload 4)
    else none

-- The status of a request, and the surface that the reply names.
unfoldable pub present_status : Session → ℕ → ℕ × ℕ
present_status s surface_id =
    if s.active_display_id == 0 && s.active_display_handle == 0 || surface_id == 0
    then (einval, 0)
    else elim (lookup s surface_id) [ none ↦ (enoent, 0) | some surf ↦ (0, surface_id) ]

-- The event after a reply of status 0: a cookie set in a queued event, or an event of its own,
-- whose failure is not reported.
unfoldable pub notify_presented : Tunables → Session → ℕ → ℕ → Session
notify_presented t s surface_id cookie =
    let (missing, s') = try_coalesce_presented t s surface_id cookie in
    if missing == 0
    then s'
    else (send_reply t s' evt_surface_presented 0 (surface_presented_payload surface_id cookie)).1

-- A failed reply is returned; a request that failed gets no event.
unfoldable pub answer_present : Tunables → Session → ℕ → ℕ → ℕ → ℕ → ℕ → ℕ × Session
answer_present t s msg_id status rep_surface_id surface_id cookie =
    let (err, s') =
      send_reply t s rpl_surface_present msg_id
        (surface_present_payload status rep_surface_id cookie) in
    if not (err == 0)
    then (err, s')
    else if not (status == 0)
    then (0, s')
    else (0, notify_presented t s' surface_id cookie)

unfoldable pub reply_surface_present : Tunables → Session → ℕ → List ℕ → ℕ → ℕ × Session
reply_surface_present t s msg_id payload payload_len = elim (read_present_req payload payload_len) [
  | none ↦ answer_present t s msg_id einval 0 0 0
  | some (surface_id, cookie) ↦
      let (status, rep_surface_id) = present_status s surface_id in
      answer_present t s msg_id status rep_surface_id surface_id cookie
]
