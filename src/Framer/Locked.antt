-- ===== src/Framer/Locked.antt =====
-- `FeedSynced`: one call on a valid framer that is synchronized.
use aribcap_dump.Framer.Boundary.{
  packet_of, deliver_one, expected_synced, expected_seeking, rank_synced, check_packet-Outcome,
}
use aribcap_dump.Framer.Window.{Owed}
use aribcap_dump.Framer.Spec.Deliver.{deliver-nil, deliver-append_false}
use aribcap_dump.Framer.Copy.{copied_bytes, copied_head, copied, copied_bounds}
use aribcap_dump.Framer.Spec.Locked.{frames_unlock}
use aribcap_dump.Framer.Lists.{drop-append_left, length_pos, take-append_left, get_or-append_left}
use aribcap_dump.Framer.Outcome.{
  Kept-some, prepend, prepend-nil, refused, IsValid-empty, continued, starved, measure, Outcome,
  IsValid,
}
use aribcap_dump.Framer.Spec.{expected, frames, expected_in, Packet}
use aribcap_dump.Framer.{
  seeking_sync, take_packet, synced, Framer, emit_packet, feed_synced, complete_packet, Ts,
}
use aribcap_dump.Prelude.{
  is_empty_nil, is_empty, ==_ne, ==_iff, length-drop, ℕ_discrete, sym, inr, ap, inl, ltb,
  Bool-cases, ap₂, length-append, ◌*◌, ◌∙◌, ◌<◌, drop, ◌++◌, take, some, true, false, arith, length,
  [], ◌∷◌, get_or, ◌≡◌, ℕ, List, Bool, refl,
}

module _ {S : Type 0} (ts : Ts) (on_packet : Packet → S → Bool × S) where
  complete_packet-Outcome :
      (f : Framer) (cursor : List ℕ) (s : S)
      → f.mode ≡ synced
      → IsValid ts f
      → is_empty f.pending ≡ false
      → is_empty cursor ≡ false
      → Outcome ts on_packet
          (λ rest. expected ts f (f.pending ++ (cursor ++ rest)))
          s
          (measure f cursor)
          (complete_packet ts on_packet f cursor s)
  unfolding complete_packet expected_in
  complete_packet-Outcome f cursor s md v ne more =
      let room : length f.pending < ts.pkt_size = ground (arith, v.buffered) in
      let b =
        copied_bounds ts.pkt_size f.pending cursor (omega (arith, ts.pkt_size_small)) room more in
      let n = copied ts.pkt_size f.pending cursor in
      let w = f.pending ++ take n cursor in
      check_packet-Outcome ts on_packet (record f { pending = w }) (drop n cursor) s _ _ md
        v.unfailed
        (λ rest.
          expected_synced ts on_packet f.mode f.initial_offset _ md
          ∙ ap (λ k. some (frames ts true 0 k))
              (sym (copied_bytes ts.pkt_size f.pending cursor rest)))
        (omega arith) (λ h. b.5 (omega arith))
        (copied_head ts.pkt_size f.pending cursor (omega arith)
          ∙ get_or-append_left f.pending cursor 0 0 (length_pos f.pending ne)
          ∙ v.starts ne)
        (omega (arith, rank_synced ts on_packet f.mode md))

  -- Nothing is buffered, and a packet starts here.
  take_packet-Outcome :
      (f : Framer) (cursor : List ℕ) (s : S) (m : ℕ) (owed : Owed ts on_packet)
      → f.mode ≡ synced
      → f.pending ≡ []
      → f.initial_sync_failed ≡ false
      → ((rest : List ℕ) → owed rest ≡ some (frames ts true 0 (cursor ++ rest)))
      → get_or cursor 0 0 ≡ ts.sync_byte
      → 2 * length cursor < m
      → Outcome ts on_packet owed s m (take_packet ts on_packet f cursor s)
  unfolding take_packet emit_packet
  take_packet-Outcome f cursor s m owed md p u o hd z =
      elim (Bool-cases (ltb (length cursor) ts.pkt_size)) [
        | inl part ↦ rw part (
            starved [] (inl refl)
              (λ rest.
                o rest
                ∙ sym (prepend-nil _ ∙ expected_synced ts on_packet f.mode f.initial_offset _ md))
              (deliver-nil on_packet s)
              (record {
                buffered = ground (arith, md);
                starts = λ _. hd;
                offset = λ e. cc md;
                unfailed = u;
              }))
        | inr full ↦
            let q = take ts.pkt_size cursor in
            let step = λ (rest : List ℕ).
              o rest
              ∙ ap some (
                  packet_of ts on_packet (cursor ++ rest)
                    (get_or-append_left cursor rest 0 0 (ground (arith, ts.pkt_size_pos)) ∙ hd)
                    (ground (arith, length-append cursor rest)))
              ∙ ap₂ (λ a b. some (a ∷ frames ts true 0 b))
                  (take-append_left ts.pkt_size cursor rest (ground arith))
                  (drop-append_left ts.pkt_size cursor rest (ground arith)) in
            elim (Bool-cases (on_packet q s).0) [
              | inl more ↦
                  rw (full, more)
                    (continued (q ∷ []) (Kept-some _ _ _ o)
                      (λ rest.
                        step rest
                        ∙ ap (prepend (q ∷ [])) (
                            sym (
                              ap (λ k. expected ts f (k ++ (drop ts.pkt_size cursor ++ rest))) p
                              ∙ expected_synced ts on_packet f.mode f.initial_offset _ md)))
                      (deliver_one ts on_packet q s true more) (IsValid-empty ts f p (λ e. cc md) u)
                      (ground (
                        arith,
                        ts.pkt_size_pos,
                        rank_synced ts on_packet f.mode md,
                        length-drop ts.pkt_size cursor,
                      )))
              | inr no_more ↦
                  rw (full, no_more)
                    (refused
                      (λ rest. (
                        _,
                        step rest,
                        deliver-append_false on_packet (q ∷ [])
                            (frames ts true 0 (drop ts.pkt_size cursor ++ rest)) s _
                            (deliver_one ts on_packet q s false no_more),
                      ))
                      u)
            ]
      ]

  -- One call of `FeedSynced` on a valid framer.
  pub feed_synced-Outcome :
      (f : Framer) (b : ℕ) (bs : List ℕ) (s : S)
      → f.mode ≡ synced
      → IsValid ts f
      → Outcome ts on_packet
          (λ rest. expected ts f (f.pending ++ (b ∷ bs ++ rest)))
          s
          (measure f (b ∷ bs))
          (feed_synced ts on_packet f (b ∷ bs) s)
  unfolding feed_synced
  feed_synced-Outcome f b bs s md v = elim (Bool-cases (is_empty f.pending)) [
    | inr part ↦ rw part (complete_packet-Outcome f (b ∷ bs) s md v part refl)
    | inl none_yet ↦
        let p = is_empty_nil f.pending none_yet in
        let start = λ (rest : List ℕ).
          ap (λ q. expected ts f (q ++ (b ∷ bs ++ rest))) p
          ∙ expected_synced ts on_packet f.mode f.initial_offset (b ∷ bs ++ rest) md in
        elim (ℕ_discrete b ts.sync_byte) [
          | yes e ↦
              rw (none_yet, (==_iff b ts.sync_byte).1 e)
                (take_packet-Outcome f (b ∷ bs) s _ _ md p v.unfailed start e
                  (omega (arith, rank_synced ts on_packet f.mode md)))
          | no ne ↦
              rw (none_yet, ==_ne b ts.sync_byte ne)
                (continued [] (inl refl)
                  (λ rest.
                    start rest
                    ∙ ap some (frames_unlock ts b (bs ++ rest) ne)
                    ∙ sym (
                        prepend-nil _
                        ∙ ap
                            (λ k.
                              expected_in ts seeking_sync f.initial_offset (k ++ (b ∷ bs ++ rest)))
                            p
                        ∙ expected_seeking ts on_packet f.initial_offset (b ∷ bs ++ rest)))
                  (deliver-nil on_packet s)
                  (IsValid-empty ts (record f { mode = seeking_sync }) p (λ k. cc) v.unfailed)
                  (omega (arith, rank_synced ts on_packet f.mode md)))
        ]
  ]
