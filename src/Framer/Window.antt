-- ===== src/Framer/Window.antt =====
-- A full probe window: confirmed, or given up for the next candidate.
use aribcap_dump.Framer.Spec.Scan.{frames-window, invalid_window, initial_frames-window}
use aribcap_dump.Framer.Seek.{confirm_sync-Outcome, skip_candidate_again, skip_candidate_first}
use aribcap_dump.Framer.Outcome.{prepend-nil, starved, Outcome, IsValid}
use aribcap_dump.Framer.Spec.Locked.{packets_from}
use aribcap_dump.Framer.Spec.{deliver, frames, expected_in, Packet}
use aribcap_dump.Framer.{
  sync_probe_size, check_window, skip_candidate, pending_sync_bytes_are_valid, seeking_sync, Framer,
  initial_sync, Ts, Mode,
}
use aribcap_dump.Prelude.{
  is_empty, ltb, inl, sym, inr, ◌∙◌, Bool-cases, [], ap, ◌-◌, arith, ◌+◌, get_or, some, ◌≤◌, false,
  ◌*◌, ◌++◌, length, ◌≡◌, Option, ◌<◌, true, List, ℕ, Bool, refl,
}

-- How `Feed` calls `FeedSeekingSync`.
pub data Seeks : Mode → Bool → Type 0 where
  first : Seeks initial_sync true
  again : Seeks seeking_sync false

abbrev pub InBound : Ts → Bool → ℕ → Type 0
InBound ts true offset = offset < ts.pkt_size
InBound ts false offset = Unit {0}

module _ {S : Type 0} (ts : Ts) (on_packet : Packet → S → Bool × S) where
  abbrev pub Owed : Type 0
  Owed = List ℕ → Option (List Packet)

  skip_candidate-Outcome :
      {mode : Mode} {initial : Bool}
      → Seeks mode initial
      → (f : Framer) (cursor : List ℕ) (s : S) (m : ℕ) (owed : Owed) → f.mode ≡ mode
      → ((rest : List ℕ)
          → owed rest ≡ expected_in ts mode f.initial_offset (f.pending ++ (cursor ++ rest)))
      → pending_sync_bytes_are_valid ts f.pending ≡ false
      → is_empty f.pending ≡ false
      → length f.pending ≤ 4 * ts.pkt_size
      → InBound ts initial f.initial_offset
      → f.initial_sync_failed ≡ false
      → 2 * length cursor + 1 < m
      → Outcome ts on_packet owed s m (skip_candidate ts on_packet f cursor initial s)
  unfolding expected_in
  skip_candidate-Outcome first f cursor s m owed md o bad ne l b u z =
      skip_candidate_first ts on_packet f cursor s m owed o
        (λ rest. invalid_window ts (cursor ++ rest) f.pending bad) ne l md b u z
  skip_candidate-Outcome again f cursor s m owed md o bad ne l b u z =
      skip_candidate_again ts on_packet f cursor s m owed o
        (λ rest. invalid_window ts (cursor ++ rest) f.pending bad) ne l md u z

  expected-window :
      {mode : Mode} {initial : Bool}
      → Seeks mode initial
      → (offset : ℕ) (w bytes : List ℕ) → InBound ts initial offset
      → length w ≡ 4 * ts.pkt_size
      → pending_sync_bytes_are_valid ts w ≡ true
      → expected_in ts mode offset (w ++ bytes)
        ≡ some (packets_from ts 4 0 w ++ frames ts true 0 bytes)
  unfolding expected_in
  expected-window first offset w bytes b e h =
      initial_frames-window ts bytes (ts.pkt_size - offset) w (omega arith) e h
  expected-window again offset w bytes b e h = ap some (frames-window ts bytes w e h)

  -- A framer that looks for sync, with what its invariant says of it.
  abbrev pub Seeking : Mode → Bool → Framer → Type 0
  Seeking mode initial f =
      (f.mode ≡ mode) × InBound ts initial f.initial_offset × (f.initial_sync_failed ≡ false)

  pub Seeking-IsValid :
      {mode : Mode} {initial : Bool}
      → Seeks mode initial
      → (f : Framer) → Seeking mode initial f
      → length f.pending < 4 * ts.pkt_size
      → (is_empty f.pending ≡ false → get_or f.pending 0 0 ≡ ts.sync_byte)
      → IsValid ts f
  Seeking-IsValid first f k l h = record {
    buffered = ground (arith, k.0);
    starts = h;
    offset = λ e. k.1;
    unfailed = k.2;
  }
  Seeking-IsValid again f k l h = record {
    buffered = ground (arith, k.0);
    starts = h;
    offset = λ e. cc (k.0);
    unfailed = k.2;
  }

  pub check_window-Outcome :
      {mode : Mode} {initial : Bool}
      → Seeks mode initial
      → (f : Framer) (cursor : List ℕ) (s : S) (m : ℕ) (owed : Owed) → Seeking mode initial f
      → ((rest : List ℕ)
          → owed rest ≡ expected_in ts mode f.initial_offset (f.pending ++ (cursor ++ rest)))
      → length f.pending ≤ 4 * ts.pkt_size
      → (length f.pending < 4 * ts.pkt_size → cursor ≡ [])
      → is_empty f.pending ≡ false
      → get_or f.pending 0 0 ≡ ts.sync_byte
      → 2 * length cursor + 1 < m
      → Outcome ts on_packet owed s m (check_window ts on_packet f cursor initial s)
  unfolding check_window deliver
  check_window-Outcome {mode} {initial} k f cursor s m owed st o fits all ne hd z =
      elim (Bool-cases (pending_sync_bytes_are_valid ts f.pending)) [
        | inr bad ↦
            rw bad (skip_candidate-Outcome k f cursor s m owed st.0 o bad ne fits st.1 st.2 z)
        | inl good ↦ elim (Bool-cases (ltb (length f.pending) (sync_probe_size ts))) [
          | inl part ↦
              rw (good, part)
                (starved [] (inl refl)
                  (λ rest.
                    o rest
                    ∙ ap (λ c. expected_in ts mode f.initial_offset (f.pending ++ (c ++ rest)))
                        (all (ground arith))
                    ∙ ap (λ t. expected_in ts t f.initial_offset (f.pending ++ rest)) (sym st.0)
                    ∙ sym (prepend-nil _))
                  refl (Seeking-IsValid k f st (ground arith) (λ _. hd)))
          | inr full ↦
              rw (good, full)
                (confirm_sync-Outcome ts on_packet f cursor s m owed
                  (λ rest.
                    o rest
                    ∙ expected-window k f.initial_offset f.pending (cursor ++ rest) st.1
                        (ground arith) good)
                  st.2 z)
        ]
      ]
