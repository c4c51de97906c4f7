-- ===== src/Framer/Tests.antt =====
-- Runs of the framer with packets of three bytes, after tests/packet_framer_test.cc, and the
-- framer's theorems at such runs.
use aribcap_dump.Framer.Packets.{read_and_frame_packets-Runs, read_and_frame_packets_keeps}
use aribcap_dump.Framer.Feed.{feed_total, feed-IsValid}
use aribcap_dump.Framer.Outcome.{IsValid}
use aribcap_dump.Framer.Input.{
  no_sync, finish_at_eof, fd_reads, failed, feed_until_eof, ReadFrameStatus, interrupted, got,
  SysRead, read_and_frame_packets,
}
use aribcap_dump.Framer.Stream.{
  read_and_frame_packets_fault, read_and_frame_packets_lem, fault, BreaksOff, verdict, eof, chunk,
  Delivers,
}
use aribcap_dump.Framer.Sample.{
  torn_reads-Delivers, torn-Runs, marked-IsPacket, marked, torn_reads, short,
}
use aribcap_dump.Framer.Spec.{deliver, stream_frames, Packet}
use aribcap_dump.Framer.{
  seeking_sync, check_packet, complete_packet, take_packet, feed_synced, emit_packet, emit_from,
  emit_sync_confirmed_packets, confirm_sync, skip_candidate, discard_pending_until_next_sync,
  pending_sync_bytes_are_valid, check_window, fill_probe, find_byte, start_probe, feed_seeking_sync,
  feed_by_mode, feed_loop, feed, Fed, Framer,
}
use aribcap_dump.Prelude.{
  length, is_empty, false, ◌≢◌, get_or, ◌++◌, some, true, ◌≡◌, ◌∷◌, Bool, [], ℕ, arith, List, refl,
}

-- The handler notes the second byte of each packet, and goes on.
abbrev markers : Packet → List ℕ → Bool × List ℕ
markers p s = (true, s ++ (get_or p 1 0 ∷ []))

-- This one stops at its second packet.
abbrev two : Packet → List ℕ → Bool × List ℕ
two p s = (is_empty s, s ++ (get_or p 1 0 ∷ []))

-- Two bytes of garbage, and four packets.
abbrev tape : List ℕ
tape = 0 ∷ 1 ∷ 0x47 ∷ 16 ∷ 0 ∷ 0x47 ∷ 17 ∷ 0 ∷ 0x47 ∷ 18 ∷ 0 ∷ 0x47 ∷ 19 ∷ 0 ∷ []

abbrev reads : List SysRead
reads =
    got (0 ∷ [])
    ∷ interrupted
    ∷ got (1 ∷ 0x47 ∷ 16 ∷ 0 ∷ [])
    ∷ got (0x47 ∷ 17 ∷ 0 ∷ 0x47 ∷ 18 ∷ 0 ∷ 0x47 ∷ 19 ∷ 0 ∷ [])
    ∷ got []
    ∷ []

reads-Delivers : Delivers reads tape
reads-Delivers = chunk 0 [] (omega arith) (
    Delivers.retry (
      chunk 1 (0x47 ∷ 16 ∷ 0 ∷ []) (omega arith)
        (chunk 0x47 (17 ∷ 0 ∷ 0x47 ∷ 18 ∷ 0 ∷ 0x47 ∷ 19 ∷ 0 ∷ []) (omega arith) eof)))

-- "PacketFramer aligns TS packets after garbage"
tape_read :
    read_and_frame_packets short markers reads []
    ≡ some (ReadFrameStatus.ok, 16 ∷ 17 ∷ 18 ∷ 19 ∷ [])
unfolding read_and_frame_packets feed_until_eof fd_reads feed feed_loop feed_by_mode
    feed_seeking_sync start_probe find_byte fill_probe check_window pending_sync_bytes_are_valid
    discard_pending_until_next_sync skip_candidate confirm_sync emit_sync_confirmed_packets
    emit_from emit_packet feed_synced take_packet complete_packet check_packet finish_at_eof
tape_read = refl

tape_stopped :
    read_and_frame_packets short two reads [] ≡ some (ReadFrameStatus.failed, 16 ∷ 17 ∷ [])
unfolding read_and_frame_packets feed_until_eof fd_reads feed feed_loop feed_by_mode
    feed_seeking_sync start_probe find_byte fill_probe check_window pending_sync_bytes_are_valid
    discard_pending_until_next_sync skip_candidate confirm_sync emit_sync_confirmed_packets
    emit_from emit_packet feed_synced take_packet complete_packet check_packet finish_at_eof
tape_stopped = refl

-- No sync byte within the first three bytes.
garbage_read :
    read_and_frame_packets short markers (got (1 ∷ 2 ∷ 3 ∷ 4 ∷ []) ∷ []) [] ≡ some (no_sync, [])
unfolding read_and_frame_packets feed_until_eof fd_reads feed feed_loop feed_by_mode
    feed_seeking_sync start_probe find_byte fill_probe check_window pending_sync_bytes_are_valid
    discard_pending_until_next_sync skip_candidate confirm_sync emit_sync_confirmed_packets
    emit_from emit_packet feed_synced take_packet complete_packet check_packet finish_at_eof
garbage_read = refl

read_and_frame_packets_example :
    read_and_frame_packets short two reads []
    ≡ some (verdict short two (stream_frames short tape) [])
read_and_frame_packets_example = read_and_frame_packets_lem short two reads-Delivers []

broken-BreaksOff : BreaksOff (got tape ∷ interrupted ∷ failed ∷ [])
broken-BreaksOff =
    BreaksOff.chunk 0 (1 ∷ 0x47 ∷ 16 ∷ 0 ∷ 0x47 ∷ 17 ∷ 0 ∷ 0x47 ∷ 18 ∷ 0 ∷ 0x47 ∷ 19 ∷ 0 ∷ [])
      (omega arith) (BreaksOff.retry fault)

read_and_frame_packets_fault_example :
    (st : ReadFrameStatus) × (t : List ℕ) × (read_and_frame_packets short markers
        (got tape ∷ interrupted ∷ failed ∷ [])
        []
      ≡ some (st, t))
    × (st ≢ ReadFrameStatus.ok)
read_and_frame_packets_fault_example =
    read_and_frame_packets_fault short markers broken-BreaksOff []

-- A framer in the middle of its first probe.
abbrev probing : Framer
probing = record {
  pending = 0x47 ∷ 16 ∷ 0 ∷ 0x47 ∷ [];
  initial_offset = 2;
  mode = seeking_sync;
  initial_sync_failed = false;
}

probing-IsValid : IsValid short probing
probing-IsValid = record {
  buffered = omega arith;
  starts = λ _. refl;
  offset = λ e. cc;
  unfailed = refl;
}

feed_total_example :
    (r : Fed short markers) × (feed short markers probing (17 ∷ 0 ∷ 9 ∷ []) [] ≡ some r)
feed_total_example =
    feed_total short markers probing (17 ∷ 0 ∷ 9 ∷ []) [] probing-IsValid (omega arith)

-- The candidate is false: the fourth byte from it on is the next one.
realigned :
    feed short markers probing (17 ∷ 0 ∷ 9 ∷ []) []
    ≡ some (true, record probing { pending = 0x47 ∷ 17 ∷ 0 ∷ 9 ∷ []; initial_offset = 2 }, [])
unfolding feed feed_loop feed_by_mode feed_seeking_sync fill_probe check_window
    pending_sync_bytes_are_valid skip_candidate discard_pending_until_next_sync find_byte
realigned = refl

feed-IsValid_example :
    IsValid short (record probing { pending = 0x47 ∷ 17 ∷ 0 ∷ 9 ∷ []; initial_offset = 2 })
feed-IsValid_example =
    feed-IsValid short markers probing _ (17 ∷ 0 ∷ 9 ∷ []) [] [] probing-IsValid (omega arith)
      realigned

-- The handler notes the length of each packet.
abbrev sizes : Packet → List ℕ → Bool × List ℕ
sizes p s = (true, length p ∷ s)

abbrev AllThree : List ℕ → Type 0
AllThree [] = Unit {0}
AllThree (n ∷ ns) = (n ≡ 3) × AllThree ns

read_and_frame_packets_keeps_example :
    (r : ReadFrameStatus × List ℕ) × (read_and_frame_packets short sizes reads [] ≡ some r)
    × AllThree r.1
read_and_frame_packets_keeps_example =
    read_and_frame_packets_keeps short sizes AllThree (λ p s i h. (i.size, h)) reads-Delivers [] tt

read_and_frame_packets-Runs_example :
    read_and_frame_packets short markers torn_reads []
    ≡ some (ReadFrameStatus.ok, 16 ∷ 17 ∷ 18 ∷ 19 ∷ 20 ∷ 21 ∷ 22 ∷ 23 ∷ [])
unfolding deliver
read_and_frame_packets-Runs_example =
    read_and_frame_packets-Runs short markers (1 ∷ []) (marked 16) (marked 17) (marked 18)
      (marked 19) (omega arith) refl
      (marked-IsPacket 16, marked-IsPacket 17, marked-IsPacket 18, marked-IsPacket 19) torn-Runs
      torn_reads-Delivers []
