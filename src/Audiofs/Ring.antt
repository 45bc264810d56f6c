-- ===== src/Audiofs/Ring.antt =====
-- The ring of bytes between the writers of /dev/audiofs<N> and the interrupt thread, in audiofs.c:
-- `audiofs_cdev_write`, `audiofs_cdev_poll`, and of `audiofs_refill_user_fragment` the part under
-- the ring's lock. What the interrupt thread does while a write has given up that lock is an
-- argument: the number of fragments that it fills.
pub mod Contents
pub mod Queue
pub mod Delivery
use awase.Base.{
  ℕ, zero, suc, ◌+◌, ◌-◌, ◌*◌, ◌/◌, ◌%◌, ◌^◌, ◌≤◌, Bool, true, false, not, ◌&&◌, ◌||◌, List, [],
  ◌∷◌, ◌++◌, length, take, drop, blit, ltb, leb, ◌==◌, if◌then◌else◌,
}
use awase.Base.Bytes.{u64}
use awase.Base.Memory.{slice}

abbrev pub ring_bytes : ℕ
ring_bytes = 32768

abbrev pub frag_bytes : ℕ
frag_bytes = 4096

abbrev pub eagain : ℕ
eagain = 35

-- The difference of two numbers of 64 bits.
abbrev pub sub64 : ℕ → ℕ → ℕ
sub64 a b = u64 (a + (2 ^ 64 - b))

-- The bytes, and the two cursors, which run on and are reduced to find a place.
pub record UserRing : Type 0 where
  pub bytes : List ℕ
  pub head : ℕ
  pub tail : ℕ

unfoldable pub used : UserRing → ℕ
used ring = sub64 ring.head ring.tail

unfoldable pub space : UserRing → ℕ
unfolding used
space ring = sub64 ring_bytes (used ring)

-- A copy out of the ring, in two spans where it passes the end.
unfoldable pub read_ring : List ℕ → ℕ → ℕ → List ℕ
read_ring bytes idx n =
    let first = ring_bytes - idx in
    if leb (idx + n) ring_bytes
    then slice idx n bytes
    else slice idx first bytes ++ slice 0 (n - first) bytes

-- A copy of `want` bytes into it, of which `chunk` arrive.
unfoldable pub write_ring : List ℕ → ℕ → ℕ → List ℕ → List ℕ
write_ring bytes idx want chunk =
    let first = ring_bytes - idx in
    if leb (idx + want) ring_bytes
    then blit bytes idx chunk
    else blit (blit bytes idx (take first chunk)) 0 (drop first chunk)

-- How many bytes a refill takes, and which.
unfoldable pub copy_size : UserRing → ℕ
unfolding used
copy_size ring = if ltb frag_bytes (used ring) then frag_bytes else used ring

unfoldable pub drain : UserRing → UserRing × List ℕ
unfolding copy_size read_ring
drain ring =
    let copy_bytes = copy_size ring in
    if ltb 0 copy_bytes
    then (
      record ring { tail = u64 (ring.tail + copy_bytes) },
      read_ring ring.bytes (ring.tail % ring_bytes) copy_bytes,
    )
    else (ring, [])

-- The same, as often as the interrupt thread does it.
unfoldable pub drain_times : ℕ → UserRing → UserRing × List ℕ
unfolding drain
drain_times zero ring = (ring, [])
drain_times (suc k) ring =
    let (ring', got) = drain ring in
    let (ring'', more) = drain_times k ring' in (ring'', got ++ more)

-- What happens while a write has given up the lock, to sleep or to copy: the refills, the error with
-- which the sleep or the copy ends, 0 for none, and how many bytes a copy moves before its error.
pub record Window : Type 0 where
  pub refills : ℕ
  pub error : ℕ
  pub moved : ℕ

abbrev pub quiet : Window
quiet = record { refills = 0; error = 0; moved = 0 }

-- How a write stands: it returned a number, or sleeps for ever. `out_of_fuel` is the model's.
pub data Outcome : Type 0 where
  returned : ℕ → Outcome
  asleep : Outcome
  out_of_fuel : Outcome

-- The ring, the bytes of the caller that are left, and what the refills took meanwhile.
pub record Written : Type 0 where
  pub ring : UserRing
  pub uio : List ℕ
  pub delivered : List ℕ
  pub outcome : Outcome

abbrev pub after : List ℕ → Written → Written
after got w = record w { delivered = got ++ w.delivered }

-- Sleeping on a ring that is full, and copying the next bytes into one that is not. `next` is the
-- rest of the loop.
unfoldable pub sleep_round :
    (List Window → UserRing → List ℕ → Written) → List Window → UserRing → List ℕ → Written
unfolding drain_times
sleep_round next [] ring uio = record { ring = ring; uio = uio; delivered = []; outcome = asleep }
sleep_round next (w ∷ ws) ring uio =
    let (ring', got) = drain_times w.refills ring in
    after got (
      if w.error == 0
      then next ws ring' uio
      else record { ring = ring'; uio = uio; delivered = []; outcome = returned w.error })

unfoldable pub copy_want :
    (List Window → UserRing → List ℕ → Written)
    → Window
    → List Window
    → ℕ
    → UserRing
    → List ℕ
    → Written
unfolding drain_times write_ring
copy_want next w ws want ring uio =
    let (ring', got) = drain_times w.refills ring in
    let moved = if w.error == 0 || ltb want w.moved then want else w.moved in
    let bytes = write_ring ring'.bytes (ring.head % ring_bytes) want (take moved uio) in
    after got (
      if w.error == 0
      then next ws (record ring' { bytes = bytes; head = u64 (ring'.head + want) }) (drop moved uio)
      else record {
        ring = record ring' { bytes = bytes };
        uio = drop moved uio;
        delivered = [];
        outcome = returned w.error;
      })

-- The window of a copy: the next, or none in which anything happens.
unfoldable pub copy_next :
    (List Window → UserRing → List ℕ → Written) → List Window → ℕ → UserRing → List ℕ → Written
unfolding copy_want
copy_next next [] want ring uio = copy_want next quiet [] want ring uio
copy_next next (w ∷ ws) want ring uio = copy_want next w ws want ring uio

unfoldable pub copy_round :
    (List Window → UserRing → List ℕ → Written) → List Window → UserRing → List ℕ → Written
unfolding copy_next space
copy_round next ws ring uio =
    let resid = length uio in
    let room = space ring in
    let want = (if ltb room resid then room else resid) / 4 * 4 in
    if want == 0
    then record { ring = ring; uio = uio; delivered = []; outcome = returned 0 }
    else copy_next next ws want ring uio

unfoldable pub cdev_write : ℕ → Bool → List Window → UserRing → List ℕ → Written
unfolding sleep_round copy_round space
cdev_write zero ndelay ws ring uio = record {
  ring = ring;
  uio = uio;
  delivered = [];
  outcome = out_of_fuel;
}
cdev_write (suc fuel) ndelay ws ring uio =
    let next = λ (ws' : List Window) (ring' : UserRing) (uio' : List ℕ).
      cdev_write fuel ndelay ws' ring' uio' in
    if ltb (length uio) 4
    then record { ring = ring; uio = uio; delivered = []; outcome = returned 0 }
    else if leb 4 (space ring)
    then copy_round next ws ring uio
    else if ndelay
    then record { ring = ring; uio = uio; delivered = []; outcome = returned eagain }
    else sleep_round next ws ring uio

-- Which of the events asked for are ready: writing with room for a frame, and reading always, so
-- that a reader sees at once that there is nothing to read. A mask is a pair of Booleans here.
unfoldable pub cdev_poll : UserRing → Bool → Bool → Bool × Bool
unfolding space
cdev_poll ring asks_out asks_in = (asks_out && leb 4 (space ring), asks_in)
