-- ===== src/Framer/Probe.antt =====
-- `FeedSeekingSync` as a whole: one call on a valid framer that looks for sync.
use aribcap_dump.Framer.Window.{
  Seeks, first, again, InBound, Owed, Seeking, Seeking-IsValid, check_window-Outcome,
}
use aribcap_dump.Framer.Lists.{length_pos, get_or-append_left, is_empty_pos}
use aribcap_dump.Framer.Copy.{copied_head, copied_bytes, copied, copied_bounds}
use aribcap_dump.Framer.Spec.Scan.{
  frames-find_byte, find_byte_head, initial_frames-find_byte, length-find_byte,
}
use aribcap_dump.Framer.Outcome.{rank, lost, measure, prepend-nil, starved, Outcome, IsValid}
use aribcap_dump.Framer.Spec.Locked.{initial_frames_lost}
use aribcap_dump.Framer.Spec.{initial_frames, expected, deliver, expected_in, Packet}
use aribcap_dump.Framer.{
  add_size, find_byte, start_probe, feed_seeking_sync, fill_probe, Framer, Ts, Mode,
}
use aribcap_dump.Prelude.{
  is_empty_nil, is_empty, if◌then◌else◌, none, leb, ◌&&◌, ◌^◌, inl, sym, inr, ◌∙◌, drop, Bool-cases,
  take, [], ap, ◌-◌, arith, get_or, some, ◌≤◌, false, ◌*◌, ◌++◌, length, ◌≡◌, ◌<◌, true, List, ℕ,
  Bool, refl,
}

module _ {S : Type 0} (ts : Ts) (on_packet : Packet → S → Bool × S) where
  fill_probe-Outcome :
      {mode : Mode} {initial : Bool}
      → Seeks mode initial
      → (f : Framer) (cursor : List ℕ) (s : S) (m : ℕ) (owed : Owed ts on_packet)
      → Seeking ts on_packet mode initial f
      → ((rest : List ℕ)
          → owed rest ≡ expected_in ts mode f.initial_offset (f.pending ++ (cursor ++ rest)))
      → length f.pending < 4 * ts.pkt_size
      → is_empty cursor ≡ false
      → get_or (f.pending ++ cursor) 0 0 ≡ ts.sync_byte
      → 2 * length cursor ≤ m
      → Outcome ts on_packet owed s m (fill_probe ts on_packet f cursor initial s)
  unfolding fill_probe
  fill_probe-Outcome {mode} {initial} k f cursor s m owed st o room ne hd z =
      let e : ts.pkt_size * 4 ≡ 4 * ts.pkt_size = omega arith in
      let b =
        copied_bounds (ts.pkt_size * 4) f.pending cursor (omega (arith, ts.pkt_size_small))
          (omega arith) ne in
      let n = copied (ts.pkt_size * 4) f.pending cursor in
      let w = f.pending ++ take n cursor in
      check_window-Outcome ts on_packet k (record f { pending = w }) (drop n cursor) s m owed st
        (λ rest.
          o rest
          ∙ ap (expected_in ts mode f.initial_offset)
              (sym (copied_bytes (ts.pkt_size * 4) f.pending cursor rest)))
        (omega arith) (λ h. b.5 (omega arith)) (is_empty_pos w (omega arith))
        (copied_head (ts.pkt_size * 4) f.pending cursor (omega arith) ∙ hd) (omega arith)

  out_of_bound :
      {mode : Mode} {initial : Bool}
      → Seeks mode initial
      → (offset : ℕ) (bytes : List ℕ) → (initial && leb ts.pkt_size offset) ≡ true
      → expected_in ts mode offset bytes ≡ none
  unfolding expected_in
  out_of_bound first offset bytes h = initial_frames_lost ts _ bytes (ground arith)
  out_of_bound again offset bytes h = cc

  in_bound :
      {mode : Mode} {initial : Bool}
      → Seeks mode initial
      → (offset : ℕ) → (initial && leb ts.pkt_size offset) ≡ false
      → InBound ts initial offset
  in_bound first offset h = ground arith
  in_bound again offset h = tt

  start_probe-Outcome :
      {mode : Mode} {initial : Bool}
      → Seeks mode initial
      → (f : Framer) (cursor : List ℕ) (s : S) (m : ℕ) (owed : Owed ts on_packet) → f.pending ≡ []
      → f.mode ≡ mode
      → f.initial_sync_failed ≡ false
      → ((rest : List ℕ) → owed rest ≡ expected_in ts mode f.initial_offset (cursor ++ rest))
      → (is_empty cursor ≡ false → get_or cursor 0 0 ≡ ts.sync_byte)
      → 2 * length cursor ≤ m
      → Outcome ts on_packet owed s m (start_probe ts on_packet f cursor initial s)
  unfolding start_probe deliver
  start_probe-Outcome {mode} {initial} k f cursor s m owed p md u o hd z =
      elim (Bool-cases (initial && leb ts.pkt_size f.initial_offset)) [
        | inl out ↦
            rw out (
              lost (λ rest. o rest ∙ out_of_bound k f.initial_offset (cursor ++ rest) out) refl
                refl)
        | inr inside ↦
            let st : Seeking ts on_packet mode initial f =
              (md, in_bound k f.initial_offset inside, u) in
            let room : length f.pending < 4 * ts.pkt_size = rw p (omega (arith, ts.pkt_size_pos)) in
            elim (Bool-cases (is_empty cursor)) [
              | inl no_more ↦
                  rw (inside, no_more)
                    (starved [] (inl refl)
                      (λ rest.
                        o rest
                        ∙ ap (λ c. expected_in ts mode f.initial_offset (c ++ rest))
                            (is_empty_nil cursor no_more)
                        ∙ ap (λ q. expected_in ts mode f.initial_offset (q ++ rest)) (sym p)
                        ∙ ap (λ t. expected_in ts t f.initial_offset (f.pending ++ rest)) (sym md)
                        ∙ sym (prepend-nil _))
                      refl (Seeking-IsValid ts on_packet k f st room (λ h. cc p)))
              | inr more ↦
                  rw (inside, more)
                    (fill_probe-Outcome k f cursor s m owed st
                      (λ rest.
                        o rest
                        ∙ ap (λ q. expected_in ts mode f.initial_offset (q ++ (cursor ++ rest)))
                            (sym p))
                      room more (ap (λ q. get_or (q ++ cursor) 0 0) p ∙ hd more) z)
            ]
      ]

  -- With an empty buffer the search passes over what is no sync byte.
  scan-Outcome :
      {mode : Mode} {initial : Bool}
      → Seeks mode initial
      → (f : Framer) (cursor : List ℕ) (s : S) (m : ℕ) (owed : Owed ts on_packet) → f.mode ≡ mode
      → IsValid ts f
      → f.pending ≡ []
      → length cursor < 2 ^ 63
      → ((rest : List ℕ) → owed rest ≡ expected_in ts mode f.initial_offset (cursor ++ rest))
      → 2 * length cursor ≤ m
      → let r = find_byte ts.sync_byte cursor in
        Outcome ts on_packet owed s m (
          start_probe ts on_packet
            (if initial then record f { initial_offset = add_size f.initial_offset r.0 } else f)
            r.1
            initial
            s)
  unfolding expected_in
  scan-Outcome first f cursor s m owed md v p small o z =
      let r = find_byte ts.sync_byte cursor in
      let len = length-find_byte ts.sync_byte cursor in
      let off : f.initial_offset < ts.pkt_size = v.offset md in
      let e : ts.pkt_size - f.initial_offset - r.0 ≡ ts.pkt_size - add_size f.initial_offset r.0 =
        omega (arith, ts.pkt_size_small) in
      start_probe-Outcome first (record f { initial_offset = add_size f.initial_offset r.0 }) r.1 s
        _ _ p md v.unfailed
        (λ rest.
          o rest
          ∙ initial_frames-find_byte ts rest (ts.pkt_size - f.initial_offset) cursor
          ∙ ap (λ n. initial_frames ts n (r.1 ++ rest)) e)
        (find_byte_head ts.sync_byte cursor) (omega arith)
  scan-Outcome again f cursor s m owed md v p small o z =
      let len = length-find_byte ts.sync_byte cursor in
      start_probe-Outcome again f (find_byte ts.sync_byte cursor).1 s _ _ p md v.unfailed
        (λ rest. o rest ∙ ap some (frames-find_byte ts rest cursor))
        (find_byte_head ts.sync_byte cursor) (omega arith)

  IsValid-Seeking :
      {mode : Mode} {initial : Bool}
      → Seeks mode initial
      → (f : Framer) → f.mode ≡ mode
      → IsValid ts f
      → Seeking ts on_packet mode initial f
        × (length f.pending < 4 * ts.pkt_size)
        × (rank f.mode ≡ 0)
  IsValid-Seeking first f md v = ((md, v.offset md, v.unfailed), ground arith, ground arith)
  IsValid-Seeking again f md v = ((md, tt, v.unfailed), ground arith, ground arith)

  -- One call of `FeedSeekingSync` on a valid framer.
  pub feed_seeking_sync-Outcome :
      {mode : Mode} {initial : Bool}
      → Seeks mode initial
      → (f : Framer) (cursor : List ℕ) (s : S) → f.mode ≡ mode
      → IsValid ts f
      → is_empty cursor ≡ false
      → length cursor < 2 ^ 63
      → Outcome ts on_packet
          (λ rest. expected ts f (f.pending ++ (cursor ++ rest)))
          s
          (measure f cursor)
          (feed_seeking_sync ts on_packet f cursor initial s)
  unfolding feed_seeking_sync
  feed_seeking_sync-Outcome k f cursor s md v ne small =
      let st = IsValid-Seeking k f md v in
      elim (Bool-cases (is_empty f.pending)) [
        | inl none_yet ↦
            let p = is_empty_nil f.pending none_yet in
            rw none_yet (
              scan-Outcome k f cursor s _ _ md v p small
                (λ rest.
                  ap (λ q. expected_in ts f.mode f.initial_offset (q ++ (cursor ++ rest))) p
                  ∙ ap (λ t. expected_in ts t f.initial_offset (cursor ++ rest)) md)
                (omega arith))
        | inr buffered ↦ rw buffered (
            fill_probe-Outcome k f cursor s _ _ st.0
              (λ rest.
                ap (λ t. expected_in ts t f.initial_offset (f.pending ++ (cursor ++ rest))) md)
              st.1 ne
              (get_or-append_left f.pending cursor 0 0 (length_pos f.pending buffered)
                ∙ v.starts buffered)
              (omega arith))
      ]
