-- ===== src/Framer/Spec/Scan.antt =====
-- What a scan for sync may leave out of the stream: bytes before a sync byte, and false candidates.
use aribcap_dump.Prelude.{
  is_empty, ap₂, sym, length-drop, ◌∙◌, take, drop, ◌≤◌, some, ℕ, zero, suc, ◌+◌, ◌-◌, ◌*◌, ◌<◌,
  ◌≡◌, refl, ap, true, false, List, [], ◌∷◌, ◌++◌, length, length-append, get_or, arith,
}
use aribcap_dump.Framer.{
  Ts, find_byte, pending_sync_bytes_are_valid, discard_pending_until_next_sync,
}
use aribcap_dump.Framer.Lists.{drop-all, take-append_left, drop-append_left, get_or-append_left}
use aribcap_dump.Framer.Spec.{probe, frames, initial_frames}
use aribcap_dump.Framer.Spec.Locked.{frames_run, packets_from, probe-head_ne}

pub length-find_byte :
    (b : ℕ) (xs : List ℕ) → (find_byte b xs).0 + length (find_byte b xs).1 ≡ length xs
unfolding find_byte
length-find_byte b [] = omega arith
length-find_byte b (x ∷ xs) = ground (arith, length-find_byte b xs)

pub find_byte_head :
    (b : ℕ) (xs : List ℕ) → is_empty (find_byte b xs).1 ≡ false → get_or (find_byte b xs).1 0 0 ≡ b
unfolding find_byte
find_byte_head b [] h = cc
find_byte_head b (x ∷ xs) h = ground (arith, find_byte_head b xs)

module _ (ts : Ts) (rest : List ℕ) where
  -- A candidate with a wrong byte at a packet boundary is no probe, whatever follows it.
  pub invalid_window :
      (w : List ℕ) → pending_sync_bytes_are_valid ts w ≡ false → probe ts (w ++ rest) ≡ false
  unfolding pending_sync_bytes_are_valid probe
  invalid_window w h = ground (
    arith,
    length-append w rest,
    get_or-append_left w rest (0 * ts.pkt_size) 0,
    get_or-append_left w rest (1 * ts.pkt_size) 0,
    get_or-append_left w rest (2 * ts.pkt_size) 0,
    get_or-append_left w rest (3 * ts.pkt_size) 0,
  )

  pub valid_window :
      (w : List ℕ)
      → length w ≡ 4 * ts.pkt_size
      → pending_sync_bytes_are_valid ts w ≡ true
      → probe ts (w ++ rest) ≡ true
  unfolding pending_sync_bytes_are_valid probe
  valid_window w e h = ground (
    arith,
    ts.pkt_size_pos,
    length-append w rest,
    get_or-append_left w rest (0 * ts.pkt_size) 0,
    get_or-append_left w rest (1 * ts.pkt_size) 0,
    get_or-append_left w rest (2 * ts.pkt_size) 0,
    get_or-append_left w rest (3 * ts.pkt_size) 0,
  )

  pub frames-find_byte :
      (xs : List ℕ)
      → frames ts false 0 (xs ++ rest) ≡ frames ts false 0 ((find_byte ts.sync_byte xs).1 ++ rest)
  unfolding find_byte frames
  frames-find_byte [] = refl
  frames-find_byte (x ∷ xs) = ground (arith, probe-head_ne ts x (xs ++ rest), frames-find_byte xs)

  pub initial_frames-find_byte :
      (n : ℕ) (xs : List ℕ)
      → initial_frames ts n (xs ++ rest)
        ≡ initial_frames ts
            (n - (find_byte ts.sync_byte xs).0)
            ((find_byte ts.sync_byte xs).1 ++ rest)
  unfolding find_byte initial_frames
  initial_frames-find_byte zero xs =
      let e : 0 ≡ 0 - (find_byte ts.sync_byte xs).0 = omega arith in
      ap (λ k. initial_frames ts k ((find_byte ts.sync_byte xs).1 ++ rest)) e
  initial_frames-find_byte (suc n) [] =
      let e : suc n ≡ suc n - 0 = omega arith in ap (λ k. initial_frames ts k rest) e
  initial_frames-find_byte (suc n) (x ∷ xs) =
      ground (arith, probe-head_ne ts x (xs ++ rest), initial_frames-find_byte n xs)

  pub frames-discard :
      (x : ℕ) (xs : List ℕ)
      → probe ts (x ∷ xs ++ rest) ≡ false
      → frames ts false 0 (x ∷ xs ++ rest)
        ≡ frames ts false 0 ((discard_pending_until_next_sync ts (x ∷ xs)).1 ++ rest)
  unfolding discard_pending_until_next_sync frames
  frames-discard x xs h = ground (arith, frames-find_byte xs)

  pub initial_frames-discard :
      (n x : ℕ) (xs : List ℕ)
      → 0 < n
      → probe ts (x ∷ xs ++ rest) ≡ false
      → let d = discard_pending_until_next_sync ts (x ∷ xs) in
        initial_frames ts n (x ∷ xs ++ rest) ≡ initial_frames ts (n - d.0) (d.1 ++ rest)
  unfolding discard_pending_until_next_sync initial_frames
  initial_frames-discard zero x xs p h = absurd (omega arith)
  initial_frames-discard (suc n) x xs p h = ground (arith, initial_frames-find_byte n xs)

  packets_from-append :
      (n index : ℕ) (w : List ℕ)
      → (index + n) * ts.pkt_size ≤ length w
      → packets_from ts n index (w ++ rest) ≡ packets_from ts n index w
  unfolding packets_from
  packets_from-append zero index w h = refl
  packets_from-append (suc n) index w h =
      let fits : index * ts.pkt_size + ts.pkt_size ≤ length w = grind arith in
      let head : take ts.pkt_size (drop (index * ts.pkt_size) (w ++ rest))
          ≡ take ts.pkt_size (drop (index * ts.pkt_size) w) =
        ap (take ts.pkt_size) (drop-append_left (index * ts.pkt_size) w rest (omega arith))
        ∙ take-append_left ts.pkt_size (drop (index * ts.pkt_size) w) rest
            (omega (arith, length-drop (index * ts.pkt_size) w)) in
      let e : (index + suc n) * ts.pkt_size ≡ (suc index + n) * ts.pkt_size = omega arith in
      ground (arith, head, packets_from-append n (suc index) w (omega arith))

  -- A full window with its four sync bytes is four packets, and then the stream goes on.
  pub frames-window :
      (w : List ℕ)
      → length w ≡ 4 * ts.pkt_size
      → pending_sync_bytes_are_valid ts w ≡ true
      → frames ts false 0 (w ++ rest) ≡ packets_from ts 4 0 w ++ frames ts true 0 rest
  frames-window w e h =
      let d : drop (4 * ts.pkt_size) (w ++ rest) ≡ rest =
        drop-append_left (4 * ts.pkt_size) w rest (omega arith)
        ∙ ap (λ k. k ++ rest) (drop-all (4 * ts.pkt_size) w (sym e)) in
      frames_run ts (w ++ rest) (valid_window w e h)
      ∙ ap₂ (λ a b. a ++ frames ts true 0 b) (packets_from-append 4 0 w (omega arith)) d

  pub initial_frames-window :
      (n : ℕ) (w : List ℕ)
      → 0 < n
      → length w ≡ 4 * ts.pkt_size
      → pending_sync_bytes_are_valid ts w ≡ true
      → initial_frames ts n (w ++ rest) ≡ some (packets_from ts 4 0 w ++ frames ts true 0 rest)
  unfolding initial_frames
  initial_frames-window zero w z e h = absurd (omega arith)
  initial_frames-window (suc n) [] z e h = absurd (omega (arith, ts.pkt_size_pos))
  initial_frames-window (suc n) (x ∷ xs) z e h =
      ground (arith, valid_window (x ∷ xs) e h, frames-window (x ∷ xs) e h)
