-- ===== src/Framer/Boundary.antt =====
-- A packet that is whole: handed over, or given up where its first byte is no sync byte.
use aribcap_dump.Framer.Window.{Owed}
use aribcap_dump.Framer.Spec.Deliver.{deliver-nil, deliver-append_false}
use aribcap_dump.Framer.Spec.Locked.{frames_locked}
use aribcap_dump.Framer.Lists.{drop-all, drop-append_left, take-append_left, get_or-append_left}
use aribcap_dump.Framer.Outcome.{
  Kept-some, prepend, rank, prepend-nil, refused, IsValid-empty, continued, starved, Outcome,
}
use aribcap_dump.Framer.Spec.{frames, expected_in, deliver, Packet}
use aribcap_dump.Framer.{seeking_sync, Mode, synced, Framer, emit_packet, check_packet, Ts}
use aribcap_dump.Prelude.{
  sym, inr, ap, inl, ltb, Bool-cases, ap₂, ◌+◌, length-append, ◌*◌, ◌∙◌, ◌<◌, drop, ◌++◌, take,
  some, true, false, arith, length, [], ◌≤◌, ◌∷◌, get_or, ◌≡◌, ℕ, List, Bool, refl,
}

module _ {S : Type 0} (ts : Ts) (on_packet : Packet → S → Bool × S) where
  -- A whole packet at the head of `xs` is handed over.
  pub packet_of :
      (xs : List ℕ)
      → get_or xs 0 0 ≡ ts.sync_byte
      → ts.pkt_size ≤ length xs
      → frames ts true 0 xs ≡ take ts.pkt_size xs ∷ frames ts true 0 (drop ts.pkt_size xs)
  packet_of xs hd h = frames_locked ts xs (ground (arith, ts.pkt_size_pos)) h

  pub deliver_one :
      (p : Packet) (s : S) (b : Bool)
      → (on_packet p s).0 ≡ b
      → deliver on_packet (p ∷ []) s ≡ (b, (on_packet p s).1)
  unfolding deliver
  deliver_one p s b h = ground arith

  -- The buffer holds exactly one packet.
  packet_buffered :
      (w bytes : List ℕ)
      → get_or w 0 0 ≡ ts.sync_byte
      → length w ≡ ts.pkt_size
      → frames ts true 0 (w ++ bytes) ≡ take ts.pkt_size w ∷ frames ts true 0 bytes
  packet_buffered w bytes hd e =
      packet_of (w ++ bytes) (get_or-append_left w bytes 0 0 (omega (arith, ts.pkt_size_pos)) ∙ hd)
        (omega (arith, length-append w bytes))
      ∙ ap₂ (λ a b. a ∷ frames ts true 0 b) (take-append_left ts.pkt_size w bytes (omega arith))
          (drop-append_left ts.pkt_size w bytes (omega arith)
            ∙ ap (λ k. k ++ bytes) (drop-all ts.pkt_size w (sym e)))

  pub expected_synced :
      (t : Mode) (offset : ℕ) (bytes : List ℕ)
      → t ≡ synced
      → expected_in ts t offset bytes ≡ some (frames ts true 0 bytes)
  unfolding expected_in
  expected_synced t offset bytes e = rw e

  pub expected_seeking :
      (offset : ℕ) (bytes : List ℕ)
      → expected_in ts seeking_sync offset bytes ≡ some (frames ts false 0 bytes)
  unfolding expected_in
  expected_seeking offset bytes = refl

  pub rank_synced : (t : Mode) → t ≡ synced → rank t ≡ 1
  rank_synced t e = rw e

  pub check_packet-Outcome :
      (f : Framer) (cursor : List ℕ) (s : S) (m : ℕ) (owed : Owed ts on_packet)
      → f.mode ≡ synced
      → f.initial_sync_failed ≡ false
      → ((rest : List ℕ) → owed rest ≡ some (frames ts true 0 (f.pending ++ (cursor ++ rest))))
      → length f.pending ≤ ts.pkt_size
      → (length f.pending < ts.pkt_size → cursor ≡ [])
      → get_or f.pending 0 0 ≡ ts.sync_byte
      → 2 * length cursor + 1 < m
      → Outcome ts on_packet owed s m (check_packet ts on_packet f cursor s)
  unfolding check_packet emit_packet expected_in
  check_packet-Outcome f cursor s m owed md u o fits all hd z =
      let p = take ts.pkt_size f.pending in
      elim (Bool-cases (ltb (length f.pending) ts.pkt_size)) [
        | inl part ↦ rw part (
            starved [] (inl refl)
              (λ rest.
                o rest
                ∙ ap (λ c. some (frames ts true 0 (f.pending ++ (c ++ rest)))) (all (ground arith))
                ∙ sym (prepend-nil _ ∙ expected_synced f.mode f.initial_offset _ md))
              (deliver-nil on_packet s)
              (record {
                buffered = ground (arith, md);
                starts = λ _. hd;
                offset = λ e. cc md;
                unfailed = u;
              }))
        | inr full ↦
            let step = λ (rest : List ℕ).
              o rest ∙ ap some (packet_buffered f.pending (cursor ++ rest) hd (ground arith)) in
            elim (Bool-cases (on_packet p s).0) [
              | inl more ↦
                  rw (full, more)
                    (continued (p ∷ []) (Kept-some _ _ _ o)
                      (λ rest.
                        step rest
                        ∙ ap (prepend (p ∷ []))
                            (sym (expected_synced f.mode f.initial_offset (cursor ++ rest) md)))
                      (deliver_one p s true more)
                      (IsValid-empty ts (record f { pending = [] }) refl (λ e. cc md) u)
                      (ground (arith, md)))
              | inr no_more ↦
                  rw (full, no_more)
                    (refused
                      (λ rest. (
                        _,
                        step rest,
                        deliver-append_false on_packet (p ∷ []) (frames ts true 0 (cursor ++ rest))
                            s _ (deliver_one p s false no_more),
                      ))
                      u)
            ]
      ]
