-- ===== src/Framer/Spec/Locked.antt =====
-- How `frames` goes on from packet to packet, and what it makes of the end of a stream.
use aribcap_dump.Prelude.{
  ℕ, zero, suc, ◌-◌, ◌*◌, ◌≤◌, ◌<◌, ◌≡◌, ◌≢◌, refl, ap, ◌∙◌, Bool, true, false, none, List, [], ◌∷◌,
  ◌++◌, length, length-drop, take, drop, arith,
}
use aribcap_dump.Framer.{Ts}
use aribcap_dump.Framer.Lists.{get_or-drop, drop-drop, drop-cons}
use aribcap_dump.Framer.Spec.{Packet, sync_at, probe, frames, initial_frames}

module _ (ts : Ts) where
  pub frames_skip :
      (locked : Bool) (k : ℕ) (xs : List ℕ) → frames ts locked k xs ≡ frames ts locked 0 (drop k xs)
  unfolding frames
  frames_skip locked zero xs = refl
  frames_skip locked (suc k) [] = refl
  frames_skip locked (suc k) (x ∷ xs) = frames_skip locked k xs

  pub probe-head_ne : (b : ℕ) (bs : List ℕ) → b ≢ ts.sync_byte → probe ts (b ∷ bs) ≡ false
  unfolding probe
  probe-head_ne b bs h = ground arith

  pub probe_short : (xs : List ℕ) → length xs < 4 * ts.pkt_size → probe ts xs ≡ false
  unfolding probe
  probe_short xs h = ground arith

  -- A locked reader takes one packet.
  pub frames_locked :
      (xs : List ℕ)
      → sync_at ts xs 0 ≡ true
      → ts.pkt_size ≤ length xs
      → frames ts true 0 xs ≡ take ts.pkt_size xs ∷ frames ts true 0 (drop ts.pkt_size xs)
  unfolding frames
  frames_locked [] s h = cc
  frames_locked (b ∷ bs) s h =
      ground
        (arith, ts.pkt_size_pos, frames_skip true (ts.pkt_size - 1) bs, drop-cons ts.pkt_size b bs)

  -- At a probe a reader that looks for sync does what a locked one does.
  pub frames-probe : (xs : List ℕ) → probe ts xs ≡ true → frames ts false 0 xs ≡ frames ts true 0 xs
  unfolding frames probe
  frames-probe [] h = refl
  frames-probe (b ∷ bs) h = ground arith

  -- Where no packet starts a locked reader looks for sync.
  pub frames_unlock :
      (b : ℕ) (bs : List ℕ)
      → b ≢ ts.sync_byte
      → frames ts true 0 (b ∷ bs) ≡ frames ts false 0 (b ∷ bs)
  unfolding frames
  frames_unlock b bs h = ground (arith, probe-head_ne b bs)

  pub frames_short : (xs : List ℕ) → length xs < 4 * ts.pkt_size → frames ts false 0 xs ≡ []
  unfolding frames
  frames_short [] h = refl
  frames_short (b ∷ bs) h = ground (arith, probe_short (b ∷ bs), frames_short bs)

  pub initial_frames_short :
      (n : ℕ) (xs : List ℕ) → length xs < 4 * ts.pkt_size → initial_frames ts n xs ≡ none
  unfolding initial_frames
  initial_frames_short zero xs h = refl
  initial_frames_short (suc n) [] h = refl
  initial_frames_short (suc n) (b ∷ bs) h =
      ground (arith, probe_short (b ∷ bs), initial_frames_short n bs)

  -- No tries are left.
  pub initial_frames_lost : (n : ℕ) (xs : List ℕ) → n ≡ 0 → initial_frames ts n xs ≡ none
  unfolding initial_frames
  initial_frames_lost zero xs h = refl
  initial_frames_lost (suc n) xs h = absurd (omega arith)

  pub frames_locked_short : (xs : List ℕ) → length xs < ts.pkt_size → frames ts true 0 xs ≡ []
  unfolding frames
  frames_locked_short [] h = refl
  frames_locked_short (b ∷ bs) h = ground (arith, frames_short bs)

  -- The packets that stand at `index`, `index + 1`, …, one after the other.
  unfoldable pub packets_from : ℕ → ℕ → List ℕ → List Packet
  packets_from zero index xs = []
  packets_from (suc n) index xs =
      take ts.pkt_size (drop (index * ts.pkt_size) xs) ∷ packets_from n (suc index) xs

  sync_at-drop : (xs : List ℕ) (k : ℕ) → sync_at ts xs k ≡ true → sync_at ts (drop k xs) 0 ≡ true
  sync_at-drop xs k h = ground (arith, get_or-drop xs k 0, length-drop k xs)

  locked_at :
      (xs : List ℕ) (i : ℕ)
      → sync_at ts xs (i * ts.pkt_size) ≡ true
      → (suc i) * ts.pkt_size ≤ length xs
      → frames ts true 0 (drop (i * ts.pkt_size) xs)
        ≡ take ts.pkt_size (drop (i * ts.pkt_size) xs)
          ∷ frames ts true 0 (drop (suc i * ts.pkt_size) xs)
  locked_at xs i s h =
      frames_locked (drop (i * ts.pkt_size) xs) (sync_at-drop xs (i * ts.pkt_size) s)
        (omega (arith, length-drop (i * ts.pkt_size) xs))
      ∙ ap (λ k. take ts.pkt_size (drop (i * ts.pkt_size) xs) ∷ frames ts true 0 k)
          (drop-drop ts.pkt_size (i * ts.pkt_size) xs ∙ ap (λ k. drop k xs) (omega arith))

  -- A probe yields its four packets.
  pub frames_run :
      (xs : List ℕ)
      → probe ts xs ≡ true
      → frames ts false 0 xs ≡ packets_from 4 0 xs ++ frames ts true 0 (drop (4 * ts.pkt_size) xs)
  unfolding packets_from probe
  frames_run xs h = ground (
    arith,
    frames-probe xs h,
    ap (λ k. frames ts true 0 (drop k xs)) (let e : 0 * ts.pkt_size ≡ 0 = omega arith in e),
    locked_at xs 0,
    locked_at xs 1,
    locked_at xs 2,
    locked_at xs 3,
  )
