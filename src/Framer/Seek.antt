-- ===== src/Framer/Seek.antt =====
-- `FeedSeekingSync` piece by piece: each return leaves what the stream still holds to the framer
-- that it returns.
use aribcap_dump.Framer.Spec.Deliver.{deliver-append_false, emit_sync_confirmed_packets-deliver}
use aribcap_dump.Framer.Outcome.{Kept-some, refused, lost, IsValid-empty, continued, Outcome}
use aribcap_dump.Framer.Spec.Scan.{
  find_byte_head, length-find_byte, initial_frames-discard, frames-discard,
}
use aribcap_dump.Framer.Spec.Locked.{initial_frames_lost, packets_from}
use aribcap_dump.Framer.Spec.{frames, initial_frames, probe, deliver, expected_in, Packet}
use aribcap_dump.Framer.{
  synced, emit_sync_confirmed_packets, add_size, initial_sync, seeking_sync, Framer, skip_candidate,
  discard_pending_until_next_sync, confirm_sync, Ts,
}
use aribcap_dump.Prelude.{
  is_empty, ◌∙◌, inr, inl, leb, [], Bool-cases, arith, ◌*◌, ◌≤◌, ◌∷◌, get_or, true, ◌-◌, ◌++◌,
  length, ◌+◌, some, false, Option, ◌≡◌, ◌<◌, ℕ, List, Bool, refl,
}

module _ {S : Type 0} (ts : Ts) (on_packet : Packet → S → Bool × S) where
  pub confirm_sync-Outcome :
      (f : Framer) (cursor : List ℕ) (s : S) (m : ℕ) (owed : List ℕ → Option (List Packet))
      → ((rest : List ℕ)
          → owed rest ≡ some (packets_from ts 4 0 f.pending ++ frames ts true 0 (cursor ++ rest)))
      → f.initial_sync_failed ≡ false
      → 2 * length cursor + 1 < m
      → Outcome ts on_packet owed s m (confirm_sync ts on_packet f cursor s)
  unfolding confirm_sync expected_in
  confirm_sync-Outcome f cursor s m owed o u l =
      let e = emit_sync_confirmed_packets-deliver ts on_packet f.pending s in
      elim (Bool-cases (emit_sync_confirmed_packets ts on_packet f.pending s).0) [
        | inl h ↦ rw h (
            continued (packets_from ts 4 0 f.pending) (Kept-some _ _ _ o) o (ground (arith, e))
              (IsValid-empty ts (record f { pending = []; mode = synced }) refl (λ k. cc) u) l)
        | inr h ↦ rw h (
            refused
              (λ rest. (
                packets_from ts 4 0 f.pending ++ frames ts true 0 (cursor ++ rest),
                o rest,
                deliver-append_false on_packet (packets_from ts 4 0 f.pending) _ s _
                    (ground (arith, e)),
              ))
              u)
      ]

  -- The window that `discard_pending_until_next_sync` leaves.
  discard-shape :
      (w : List ℕ)
      → is_empty w ≡ false
      → let d = discard_pending_until_next_sync ts w in
        (d.0 + length d.1 ≡ length w)
        × (0 < d.0)
        × (is_empty d.1 ≡ false → get_or d.1 0 0 ≡ ts.sync_byte)
  unfolding discard_pending_until_next_sync
  discard-shape [] h = cc
  discard-shape (x ∷ xs) h =
      (omega (arith, length-find_byte ts.sync_byte xs), omega arith, find_byte_head ts.sync_byte xs)

  frames-discard_window :
      (w bytes : List ℕ)
      → is_empty w ≡ false
      → probe ts (w ++ bytes) ≡ false
      → frames ts false 0 (w ++ bytes)
        ≡ frames ts false 0 ((discard_pending_until_next_sync ts w).1 ++ bytes)
  frames-discard_window [] bytes h p = cc
  frames-discard_window (x ∷ xs) bytes h p = frames-discard ts bytes x xs p

  initial_frames-discard_window :
      (n : ℕ) (w bytes : List ℕ)
      → 0 < n
      → is_empty w ≡ false
      → probe ts (w ++ bytes) ≡ false
      → let d = discard_pending_until_next_sync ts w in
        initial_frames ts n (w ++ bytes) ≡ initial_frames ts (n - d.0) (d.1 ++ bytes)
  initial_frames-discard_window n [] bytes z h p = cc
  initial_frames-discard_window n (x ∷ xs) bytes z h p = initial_frames-discard ts bytes n x xs z p

  pub skip_candidate_again :
      (f : Framer) (cursor : List ℕ) (s : S) (m : ℕ) (owed : List ℕ → Option (List Packet))
      → ((rest : List ℕ) → owed rest ≡ some (frames ts false 0 (f.pending ++ (cursor ++ rest))))
      → ((rest : List ℕ) → probe ts (f.pending ++ (cursor ++ rest)) ≡ false)
      → is_empty f.pending ≡ false
      → length f.pending ≤ 4 * ts.pkt_size
      → f.mode ≡ seeking_sync
      → f.initial_sync_failed ≡ false
      → 2 * length cursor + 1 < m
      → Outcome ts on_packet owed s m (skip_candidate ts on_packet f cursor false s)
  unfolding skip_candidate expected_in deliver
  skip_candidate_again f cursor s m owed o np ne l md u z =
      let d = discard-shape f.pending ne in
      continued [] (inl refl)
        (λ rest.
          ground (arith, o rest, frames-discard_window f.pending (cursor ++ rest) ne (np rest)))
        refl
        (record {
          buffered = ground (arith, d.0, d.1);
          starts = d.2;
          offset = λ k. cc;
          unfailed = u;
        })
        (ground arith)

  pub skip_candidate_first :
      (f : Framer) (cursor : List ℕ) (s : S) (m : ℕ) (owed : List ℕ → Option (List Packet))
      → ((rest : List ℕ)
          → owed rest
            ≡ initial_frames ts (ts.pkt_size - f.initial_offset) (f.pending ++ (cursor ++ rest)))
      → ((rest : List ℕ) → probe ts (f.pending ++ (cursor ++ rest)) ≡ false)
      → is_empty f.pending ≡ false
      → length f.pending ≤ 4 * ts.pkt_size
      → f.mode ≡ initial_sync
      → f.initial_offset < ts.pkt_size
      → f.initial_sync_failed ≡ false
      → 2 * length cursor + 1 < m
      → Outcome ts on_packet owed s m (skip_candidate ts on_packet f cursor true s)
  unfolding skip_candidate expected_in deliver
  skip_candidate_first f cursor s m owed o np ne l md off u z =
      let d = discard-shape f.pending ne in
      let skipped = (discard_pending_until_next_sync ts f.pending).0 in
      let no_wrap : add_size f.initial_offset skipped ≡ f.initial_offset + skipped =
        omega (arith, ts.pkt_size_small, d.0) in
      let step = λ (rest : List ℕ).
        initial_frames-discard_window (ts.pkt_size - f.initial_offset) f.pending (cursor ++ rest)
          (omega arith) ne (np rest) in
      elim (Bool-cases (leb ts.pkt_size (add_size f.initial_offset skipped))) [
        | inl h ↦ rw h (
            lost (λ rest. o rest ∙ step rest ∙ initial_frames_lost ts _ _ (ground (arith, no_wrap)))
              refl refl)
        | inr h ↦ rw h (
            continued [] (inl refl) (λ rest. o rest ∙ step rest ∙ ground (arith, no_wrap)) refl
              (record {
                buffered = ground (arith, d.0, d.1);
                starts = d.2;
                offset = λ k. ground (arith, no_wrap);
                unfailed = u;
              })
              (ground arith))
      ]
