-- ===== src/Framer.antt =====
-- core/packet_framer.hpp and core/packet_framer.cc: `PacketFramer`, from raw bytes to TS packets.
-- Bytes are numbers. `pending` holds `pending_[0 .. pending_size_)`; the rest of the array is never
-- read. A pointer range `[cursor, end)` is the list of its bytes, and `size_t` sums and differences
-- keep their wrap-around. The handler `on_packet` is a function on a state `S` of its own.
pub mod Input
pub mod Spec
mod Lists
pub mod Outcome
mod Seek
mod Probe
mod Window
mod Copy
pub mod Feed
pub mod Stream
pub mod Packets
pub mod Sample
mod Tests
mod Boundary
mod Locked
use aribcap_dump.Prelude.{
  is_empty, ℕ, zero, suc, ◌+◌, ◌-◌, ◌*◌, ◌%◌, ◌^◌, ◌<◌, Bool, true, false, not, ◌&&◌, ltb, leb,
  ◌==◌, if◌then◌else◌, Option, none, some, List, [], ◌∷◌, ◌++◌, length, get_or, take, drop,
}

-- What the framer takes from TSDuck's `tsTSPacket.h`: `ts::PKT_SIZE` and `ts::SYNC_BYTE`, with
-- what it relies on: a packet is not empty, and four fit a `size_t` with room to spare.
pub record Ts : Type 0 where
  pub pkt_size : ℕ
  pub sync_byte : ℕ
  pub pkt_size_pos : 0 < pkt_size
  pub pkt_size_small : pkt_size < 2 ^ 32

abbrev pub add_size : ℕ → ℕ → ℕ
add_size a b = (a + b) % 2 ^ 64

abbrev pub sub_size : ℕ → ℕ → ℕ
sub_size a b = (2 ^ 64 + a - b) % 2 ^ 64

abbrev pub min_size : ℕ → ℕ → ℕ
min_size a b = if ltb b a then b else a

pub data Mode : Type 0 where
  initial_sync seeking_sync synced : Mode

pub data FeedResult : Type 0 where
  continue need_more_data stop : FeedResult

pub record Framer : Type 0 where
  pub pending : List ℕ
  pub initial_offset : ℕ
  pub mode : Mode
  pub initial_sync_failed : Bool

abbrev pub sync_probe_packets : ℕ
sync_probe_packets = 4

abbrev pub fresh : Framer
fresh = record {
  pending = [];
  initial_offset = 0;
  mode = initial_sync;
  initial_sync_failed = false;
}

-- `std::find`: how many bytes are passed, and what stands from the byte found on.
pub find_byte : ℕ → List ℕ → ℕ × List ℕ
find_byte b [] = (0, [])
find_byte b (x ∷ xs) = let r = find_byte b xs in if x == b then (0, x ∷ xs) else (suc r.0, r.1)

module _ (ts : Ts) where
  abbrev pub sync_probe_size : ℕ
  sync_probe_size = ts.pkt_size * sync_probe_packets

  abbrev pub boundary_is_valid : List ℕ → ℕ → Bool
  boundary_is_valid w offset =
      not (ltb offset (length w) && not (get_or w offset 0 == ts.sync_byte))

  -- The loop over the four packet boundaries, written out.
  pub pending_sync_bytes_are_valid : List ℕ → Bool
  pending_sync_bytes_are_valid w =
      boundary_is_valid w (0 * ts.pkt_size)
      && (boundary_is_valid w (1 * ts.pkt_size)
          && (boundary_is_valid w (2 * ts.pkt_size) && boundary_is_valid w (3 * ts.pkt_size)))

  -- The number of bytes discarded, and the new contents of `pending_`.
  pub discard_pending_until_next_sync : List ℕ → ℕ × List ℕ
  discard_pending_until_next_sync w = let r = find_byte ts.sync_byte (drop 1 w) in (suc r.0, r.1)

module _ {S : Type 0} (ts : Ts) (on_packet : List ℕ → S → Bool × S) where
  -- `bytes` starts at the packet: the packet is its first `pkt_size` bytes.
  pub emit_packet : List ℕ → S → Bool × S
  emit_packet bytes s = on_packet (take ts.pkt_size bytes) s

  -- The loop from `index` on, with `n` rounds left.
  pub emit_from : ℕ → ℕ → List ℕ → S → Bool × S
  emit_from zero index bytes s = (true, s)
  emit_from (suc n) index bytes s =
      let r = emit_packet (drop (index * ts.pkt_size) bytes) s in
      elim r.0 [ true ↦ emit_from n (suc index) bytes r.1 | false ↦ (false, r.1) ]

  pub emit_sync_confirmed_packets : List ℕ → S → Bool × S
  emit_sync_confirmed_packets bytes s = emit_from sync_probe_packets 0 bytes s

  -- Each step returns its `FeedResult`, the framer, the new cursor and the handler's state.
  abbrev pub Step : Type 0
  Step = FeedResult × Framer × List ℕ × S

  -- `FeedSeekingSync`, once the probe window begins with a false candidate.
  pub skip_candidate : Framer → List ℕ → Bool → S → Step
  skip_candidate f cursor initial s =
      let d = discard_pending_until_next_sync ts f.pending in
      let g = record f { pending = d.1 } in
      let h = record g { initial_offset = add_size f.initial_offset d.0 } in
      if initial
      then (if leb ts.pkt_size h.initial_offset
          then (stop, record h { initial_sync_failed = true }, cursor, s)
          else (continue, h, cursor, s))
      else (continue, g, cursor, s)

  -- `FeedSeekingSync`, once four packet boundaries hold a sync byte.
  pub confirm_sync : Framer → List ℕ → S → Step
  confirm_sync f cursor s =
      let r = emit_sync_confirmed_packets f.pending s in
      if r.0
      then (continue, record f { pending = []; mode = synced }, cursor, r.1)
      else (stop, record f { pending = [] }, cursor, r.1)

  -- `FeedSeekingSync` after the copy into the probe window.
  pub check_window : Framer → List ℕ → Bool → S → Step
  check_window f cursor initial s =
      if not (pending_sync_bytes_are_valid ts f.pending)
      then skip_candidate f cursor initial s
      else if ltb (length f.pending) (sync_probe_size ts)
      then (need_more_data, f, cursor, s)
      else confirm_sync f cursor s

  -- `FeedSeekingSync` from the copy into the probe window on.
  pub fill_probe : Framer → List ℕ → Bool → S → Step
  fill_probe f cursor initial s =
      let needed = sub_size (sync_probe_size ts) (length f.pending) in
      let copied = min_size needed (length cursor) in
      check_window (record f { pending = f.pending ++ take copied cursor }) (drop copied cursor)
        initial s

  -- `FeedSeekingSync` after the search for a sync byte, with nothing buffered.
  pub start_probe : Framer → List ℕ → Bool → S → Step
  start_probe f cursor initial s =
      if initial && leb ts.pkt_size f.initial_offset
      then (stop, record f { initial_sync_failed = true }, cursor, s)
      else if is_empty cursor
      then (need_more_data, f, cursor, s)
      else fill_probe f cursor initial s

  pub feed_seeking_sync : Framer → List ℕ → Bool → S → Step
  feed_seeking_sync f cursor initial s =
      let r = find_byte ts.sync_byte cursor in
      let g = if initial then record f { initial_offset = add_size f.initial_offset r.0 } else f in
      if is_empty f.pending then start_probe g r.1 initial s else fill_probe f cursor initial s

  -- `FeedSynced` after the copy into the buffered packet.
  pub check_packet : Framer → List ℕ → S → Step
  check_packet f cursor s =
      let r = emit_packet f.pending s in
      if ltb (length f.pending) ts.pkt_size
      then (need_more_data, f, cursor, s)
      else if r.0
      then (continue, record f { pending = [] }, cursor, r.1)
      else (stop, record f { pending = [] }, cursor, r.1)

  -- `FeedSynced` with part of a packet buffered.
  pub complete_packet : Framer → List ℕ → S → Step
  complete_packet f cursor s =
      let needed = sub_size ts.pkt_size (length f.pending) in
      let copied = min_size needed (length cursor) in
      check_packet (record f { pending = f.pending ++ take copied cursor }) (drop copied cursor) s

  -- `FeedSynced` with nothing buffered and a sync byte at the cursor.
  pub take_packet : Framer → List ℕ → S → Step
  take_packet f cursor s =
      let r = emit_packet cursor s in
      if ltb (length cursor) ts.pkt_size
      then (need_more_data, record f { pending = cursor }, cursor, s)
      else if r.0
      then (continue, f, drop ts.pkt_size cursor, r.1)
      else (stop, f, cursor, r.1)

  pub feed_synced : Framer → List ℕ → S → Step
  feed_synced f cursor s =
      if not (is_empty f.pending)
      then complete_packet f cursor s
      else if not (get_or cursor 0 0 == ts.sync_byte)
      then (continue, record f { mode = seeking_sync }, cursor, s)
      else take_packet f cursor s

  -- The `switch` of `Feed`.
  pub feed_by_mode : Mode → Framer → List ℕ → S → Step
  feed_by_mode initial_sync f cursor s = feed_seeking_sync f cursor true s
  feed_by_mode seeking_sync f cursor s = feed_seeking_sync f cursor false s
  feed_by_mode synced f cursor s = feed_synced f cursor s

  abbrev pub Fed : Type 0
  Fed = Bool × Framer × S

  -- The loop of `Feed`; `none` is fuel that ran out.
  pub feed_loop : ℕ → Framer → List ℕ → S → Option Fed
  feed_loop zero f cursor s = none
  feed_loop (suc n) f [] s = some (true, f, s)
  feed_loop (suc n) f (b ∷ bs) s =
      let r = feed_by_mode f.mode f (b ∷ bs) s in
      elim r.0 [
        | continue ↦ feed_loop n r.1 r.2 r.3
        | need_more_data ↦ some (true, r.1, r.3)
        | stop ↦ some (false, r.1, r.3)
      ]

  -- Each round takes a byte or leaves `synced`, so two rounds for each byte are enough.
  pub feed : Framer → List ℕ → S → Option Fed
  feed f bytes s = feed_loop (2 * length bytes + 2) f bytes s
