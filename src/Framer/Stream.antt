-- ===== src/Framer/Stream.antt =====
-- `ReadAndFramePackets` against the specification: whatever the sizes of the chunks in which a file
-- is read.
use aribcap_dump.Framer.Spec.Locked.{frames_locked_short, frames_short, initial_frames_short}
use aribcap_dump.Framer.Spec.Deliver.{deliver-nil, deliver-append_true}
use aribcap_dump.Framer.Feed.{lost, refused, fed, feed-Loops, Loops}
use aribcap_dump.Framer.Outcome.{Kept, prepend, IsValid-empty, IsValid}
use aribcap_dump.Framer.Spec.{initial_frames, deliver, expected, stream_frames, expected_in, Packet}
use aribcap_dump.Framer.Input.{
  read_bytes, finish_at_eof, chunk_size, status_of, ReadResult, finish_mode, no_sync, fd_reads,
  ReadFrameStatus, interrupted, read_and_frame_packets, feed_until_eof, got, failed, SysRead,
}
use aribcap_dump.Framer.{synced, seeking_sync, initial_sync, feed, fresh, Framer, Fed, Mode, Ts}
use aribcap_dump.Prelude.{
  length-append, ◌-◌, false, inr, inl, sym, ◌∙◌, ap, arith, true, not, none, if◌then◌else◌, ◌++◌,
  ◌≢◌, ◌≤◌, some, ◌⊎◌, length, ◌≡◌, [], Option, ◌∷◌, Bool, ℕ, List, refl,
}

-- `read(2)` answers with a file's bytes in chunks, and then with its end.
pub data Delivers : List SysRead → List ℕ → Type 0 where
  eof : {rs : List SysRead} → Delivers (got [] ∷ rs) []
  retry : {rs : List SysRead} {xs : List ℕ} → Delivers rs xs → Delivers (interrupted ∷ rs) xs
  chunk :
      {rs : List SysRead} {xs : List ℕ} (b : ℕ) (bs : List ℕ)
      → length (b ∷ bs) ≤ chunk_size
      → Delivers rs xs
      → Delivers (got (b ∷ bs) ∷ rs) (b ∷ bs ++ xs)

-- Some chunks, and then an error.
pub data BreaksOff : List SysRead → Type 0 where
  fault : {rs : List SysRead} → BreaksOff (failed ∷ rs)
  retry : {rs : List SysRead} → BreaksOff rs → BreaksOff (interrupted ∷ rs)
  chunk :
      {rs : List SysRead} (b : ℕ) (bs : List ℕ)
      → length (b ∷ bs) ≤ chunk_size
      → BreaksOff rs
      → BreaksOff (got (b ∷ bs) ∷ rs)

module _ {S : Type 0} (ts : Ts) (on_packet : Packet → S → Bool × S) where
  -- What a run is to report, and the state in which it is to leave the handler.
  abbrev pub verdict : Option (List Packet) → S → ReadFrameStatus × S
  verdict none s = (no_sync, s)
  verdict (some ps) s =
      let r = deliver on_packet ps s in
      (if r.0 then ReadFrameStatus.ok else ReadFrameStatus.failed, r.1)

  verdict-prepend :
      (ps : List Packet) (o : Option (List Packet)) (s t : S)
      → (ps ≡ []) ⊎ (o ≢ none)
      → deliver on_packet ps s ≡ (true, t)
      → verdict (prepend ps o) s ≡ verdict o t
  verdict-prepend ps (some qs) s t k d =
      ap (λ r. (if r.0 then ReadFrameStatus.ok else ReadFrameStatus.failed, r.1))
        (deliver-append_true on_packet ps qs s t d)
  verdict-prepend ps none s t (inl e) d =
      ap (λ x. (no_sync, x.1))
        (sym (deliver-nil on_packet s) ∙ ap (λ k. deliver on_packet k s) (sym e) ∙ d)
  verdict-prepend ps none s t (inr k) d = absurd (k refl)

  verdict-false :
      (qs : List Packet) (s t : S)
      → deliver on_packet qs s ≡ (false, t)
      → verdict (some qs) s ≡ (ReadFrameStatus.failed, t)
  verdict-false qs s t e =
      ap (λ r. (if r.0 then ReadFrameStatus.ok else ReadFrameStatus.failed, r.1)) e

  verdict-nil : (s : S) → verdict (some []) s ≡ (ReadFrameStatus.ok, s)
  verdict-nil s =
      ap (λ r. (if r.0 then ReadFrameStatus.ok else ReadFrameStatus.failed, r.1))
        (deliver-nil on_packet s)

  Kept-here :
      {owed : List ℕ → Option (List Packet)} (ps : List Packet) (rest : List ℕ)
      (o : Option (List Packet))
      → Kept owed ps
      → owed rest ≡ prepend ps o
      → (ps ≡ []) ⊎ (o ≢ none)
  Kept-here ps rest o (inl e) h = inl e
  Kept-here ps rest o (inr k) h = inr (λ e. k rest (h ∙ ap (prepend ps) e))

  verdict-eof :
      (t : Mode) (f : Framer) (s : S)
      → f.mode ≡ t
      → IsValid ts f
      → let g = finish_mode t f in
        status_of ts on_packet (not g.initial_sync_failed, g, s)
        ≡ verdict (expected_in ts t f.initial_offset (f.pending ++ [])) s
  unfolding expected_in
  verdict-eof initial_sync f s md v = sym (
      ap (λ o. verdict o s)
        (initial_frames_short ts _ (f.pending ++ [])
          (ground (arith, v.buffered, length-append f.pending []))))
  verdict-eof seeking_sync f s md v = rw v.unfailed (
      sym (
        ap (λ ps. verdict (some ps) s)
          (frames_short ts (f.pending ++ [])
            (ground (arith, v.buffered, length-append f.pending [])))
        ∙ verdict-nil s))
  verdict-eof synced f s md v = rw v.unfailed (
      sym (
        ap (λ ps. verdict (some ps) s)
          (frames_locked_short ts (f.pending ++ [])
            (ground (arith, v.buffered, length-append f.pending [])))
        ∙ verdict-nil s))

  abbrev Answers : Option (Fed ts on_packet) → ReadFrameStatus × S → Type 0
  Answers o a = (r : Fed ts on_packet) × (o ≡ some r) × (status_of ts on_packet r ≡ a)

  -- One chunk, and then what the rest of the file gives.
  after_chunk :
      (f : Framer) (xs : List ℕ) (s : S) (b : ℕ) (bs : List ℕ) (rs : List ReadResult)
      → Loops ts on_packet
          (λ rest. expected ts f (f.pending ++ (b ∷ bs ++ rest)))
          s
          (feed ts on_packet f (b ∷ bs) s)
      → ((g : Framer) (t : S)
          → IsValid ts g
          → Answers
              (feed_until_eof ts on_packet g rs t)
              (verdict (expected ts g (g.pending ++ xs)) t))
      → Answers
          (feed_until_eof ts on_packet f (read_bytes (b ∷ bs) ∷ rs) s)
          (verdict (expected ts f (f.pending ++ (b ∷ bs ++ xs))) s)
  unfolding feed_until_eof
  after_chunk f xs s b bs rs (_, e, fed {g} {t} ps k o d v) next =
      let (r, q, a) = next g t v in
      (
        r,
        rw (e, feed_until_eof) q,
        a
            ∙ sym (
                ap (λ w. verdict w s) (o xs)
                ∙ verdict-prepend ps _ s t (Kept-here ps xs _ k (o xs)) d),
      )
  after_chunk f xs s b bs rs (_, e, refused {g} {t} r u) next = (
    (false, g, t),
    rw (e, feed_until_eof) refl,
    rw u (sym (ap (λ w. verdict w s) (r xs).1 ∙ verdict-false _ s _ (r xs).2)),
  )
  after_chunk f xs s b bs rs (_, e, lost {g} {t} l e' u) next = (
    (false, g, t),
    rw (e, feed_until_eof) refl,
    rw u (ap (λ x. (no_sync, x)) e' ∙ sym (ap (λ w. verdict w s) (l xs))),
  )

  feed_until_eof-Answers :
      {rs : List SysRead} {xs : List ℕ}
      → Delivers rs xs
      → (f : Framer) (s : S) → IsValid ts f
      → Answers
          (feed_until_eof ts on_packet f (fd_reads rs) s)
          (verdict (expected ts f (f.pending ++ xs)) s)
  unfolding feed_until_eof fd_reads
  feed_until_eof-Answers eof f s v =
      (_, refl, unfold finish_at_eof in verdict-eof f.mode f s refl v)
  feed_until_eof-Answers (retry d) f s v = feed_until_eof-Answers d f s v
  feed_until_eof-Answers (chunk {xs = xs} b bs l d) f s v =
      after_chunk f xs s b bs _ (feed-Loops ts on_packet f (b ∷ bs) s v (omega arith))
        (λ g t w. feed_until_eof-Answers d g t w)

  fresh-IsValid : IsValid ts fresh
  fresh-IsValid = IsValid-empty ts fresh refl (λ _. ts.pkt_size_pos) refl

  -- `ReadAndFramePackets` on a file that is read to its end, in chunks of any sizes up to that of
  -- the buffer and with any number of interrupted reads: it returns, and its status and the handler's
  -- state depend on the bytes alone. If the bytes have no sync within the first packet's length, it
  -- reports that and the handler is never called; otherwise the handler gets the packets of the
  -- specification in order, and the run has failed exactly if the handler returned false.
  pub read_and_frame_packets_lem :
      {rs : List SysRead} {xs : List ℕ}
      → Delivers rs xs
      → (s : S) → read_and_frame_packets ts on_packet rs s ≡ some (verdict (stream_frames ts xs) s)
  unfolding read_and_frame_packets stream_frames expected_in
  read_and_frame_packets_lem {rs} {xs} d s =
      let (r, e, a) = feed_until_eof-Answers d fresh s fresh-IsValid in
      let n : ts.pkt_size - 0 ≡ ts.pkt_size = omega arith in
      rw (e, read_and_frame_packets) (ap some (a ∙ ap (λ k. verdict (initial_frames ts k xs) s) n))

  -- A run that ends early.
  abbrev Fails : Option (Fed ts on_packet) → Type 0
  Fails o = (r : Fed ts on_packet) × (o ≡ some r) × (r.0 ≡ false)

  -- One chunk, and then an error.
  fault_after :
      (f : Framer) (s : S) (b : ℕ) (bs : List ℕ) (rs : List ReadResult)
      → Loops ts on_packet
          (λ rest. expected ts f (f.pending ++ (b ∷ bs ++ rest)))
          s
          (feed ts on_packet f (b ∷ bs) s)
      → ((g : Framer) (t : S) → IsValid ts g → Fails (feed_until_eof ts on_packet g rs t))
      → Fails (feed_until_eof ts on_packet f (read_bytes (b ∷ bs) ∷ rs) s)
  unfolding feed_until_eof
  fault_after f s b bs rs (_, e, fed {g} {t} ps k o d v) next =
      let (r, q, a) = next g t v in (r, rw (e, feed_until_eof) q, a)
  fault_after f s b bs rs (_, e, refused {g} {t} r u) next =
      ((false, g, t), rw (e, feed_until_eof) refl, refl)
  fault_after f s b bs rs (_, e, lost {g} {t} l e' u) next =
      ((false, g, t), rw (e, feed_until_eof) refl, refl)

  feed_until_eof-Fails :
      {rs : List SysRead}
      → BreaksOff rs
      → (f : Framer) (s : S) → IsValid ts f
      → Fails (feed_until_eof ts on_packet f (fd_reads rs) s)
  unfolding feed_until_eof fd_reads
  feed_until_eof-Fails fault f s v = (_, refl, refl)
  feed_until_eof-Fails (retry d) f s v = feed_until_eof-Fails d f s v
  feed_until_eof-Fails (chunk b bs l d) f s v =
      fault_after f s b bs _ (feed-Loops ts on_packet f (b ∷ bs) s v (omega arith))
        (λ g t w. feed_until_eof-Fails d g t w)

  -- `ReadAndFramePackets` where a read fails after some chunks: it returns, and never reports
  -- success.
  pub read_and_frame_packets_fault :
      {rs : List SysRead}
      → BreaksOff rs
      → (s : S)
      → (st : ReadFrameStatus) × (t : S) × (read_and_frame_packets ts on_packet rs s ≡ some (st, t))
        × (st ≢ ReadFrameStatus.ok)
  unfolding read_and_frame_packets
  read_and_frame_packets_fault {rs} d s =
      let (r, e, a) = feed_until_eof-Fails d fresh s fresh-IsValid in
      (
        (status_of ts on_packet r).0,
        (status_of ts on_packet r).1,
        rw (e, read_and_frame_packets) refl,
        not_ok r a,
      )
    where
      not_ok :
          (r : Fed ts on_packet) → r.0 ≡ false → (status_of ts on_packet r).0 ≢ ReadFrameStatus.ok
      not_ok r h = ground arith
