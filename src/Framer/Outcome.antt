-- ===== src/Framer/Outcome.antt =====
-- The framer's invariant, the measure of its loop, and what one step of `Feed` achieves.
use aribcap_dump.Prelude.{
  is_empty, ◌≤◌, ◌≢◌, inr, ◌⊎◌, refl, arith, [], ℕ, ◌+◌, ◌*◌, ◌<◌, ◌≡◌, Bool, true, false, [],
  Option, none, some, List, ◌++◌, length, get_or,
}
use aribcap_dump.Framer.{
  Ts, Mode, initial_sync, synced, continue, need_more_data, stop, Framer, Step,
}
use aribcap_dump.Framer.Spec.{Packet, expected, deliver}

-- A probe window, or part of one packet.
abbrev pub capacity : Ts → Mode → ℕ
capacity ts synced = ts.pkt_size
capacity ts _ = 4 * ts.pkt_size

pub record IsValid (ts : Ts) (f : Framer) : Type 0 where
  pub buffered : length f.pending < capacity ts f.mode
  pub starts : is_empty f.pending ≡ false → get_or f.pending 0 0 ≡ ts.sync_byte
  pub offset : f.mode ≡ initial_sync → f.initial_offset < ts.pkt_size
  pub unfailed : f.initial_sync_failed ≡ false

-- With nothing buffered.
pub IsValid-empty :
    (ts : Ts) (f : Framer)
    → f.pending ≡ []
    → (f.mode ≡ initial_sync → f.initial_offset < ts.pkt_size)
    → f.initial_sync_failed ≡ false
    → IsValid ts f
IsValid-empty ts f p o u = record {
  buffered = rw p (capacity_pos f.mode);
  starts = λ e. cc p;
  offset = o;
  unfailed = u;
}
  where
    capacity_pos : (m : Mode) → 0 < capacity ts m
    capacity_pos synced = ts.pkt_size_pos
    capacity_pos _ = omega (arith, ts.pkt_size_pos)

-- A round takes a byte, or leaves `synced`.
abbrev pub rank : Mode → ℕ
rank synced = 1
rank _ = 0

pub rank-le : (t : Mode) → rank t ≤ 1
rank-le synced = omega arith
rank-le _ = omega arith

abbrev pub measure : Framer → List ℕ → ℕ
measure f cursor = 2 * length cursor + rank f.mode

abbrev pub prepend : List Packet → Option (List Packet) → Option (List Packet)
prepend ps none = none
prepend ps (some qs) = some (ps ++ qs)

pub prepend-nil : (o : Option (List Packet)) → prepend [] o ≡ o
prepend-nil none = refl
prepend-nil (some qs) = refl

-- Packets are handed over only where the stream has a sync.
abbrev pub Kept : (List ℕ → Option (List Packet)) → List Packet → Type 0
Kept owed ps = (ps ≡ []) ⊎ ((rest : List ℕ) → owed rest ≢ none)

pub Kept-some :
    (owed : List ℕ → Option (List Packet)) (ps : List Packet) (qs : List ℕ → List Packet)
    → ((rest : List ℕ) → owed rest ≡ some (qs rest))
    → Kept owed ps
Kept-some owed ps qs o = inr (λ rest e. cc (o rest))

module _ {S : Type 0} (ts : Ts) (on_packet : Packet → S → Bool × S) where
  -- `owed rest` is what the stream holds from here on if `rest` follows the input.
  pub data Outcome (owed : List ℕ → Option (List Packet)) (s : S) (m : ℕ)
      : Step ts on_packet → Type 0 where
    continued :
        {g : Framer} {d : List ℕ} {t : S} (ps : List Packet)
        → Kept owed ps
        → ((rest : List ℕ) → owed rest ≡ prepend ps (expected ts g (g.pending ++ (d ++ rest))))
        → deliver on_packet ps s ≡ (true, t)
        → IsValid ts g
        → measure g d < m
        → Outcome owed s m (continue, g, d, t)
    starved :
        {g : Framer} {d : List ℕ} {t : S} (ps : List Packet)
        → Kept owed ps
        → ((rest : List ℕ) → owed rest ≡ prepend ps (expected ts g (g.pending ++ rest)))
        → deliver on_packet ps s ≡ (true, t)
        → IsValid ts g
        → Outcome owed s m (need_more_data, g, d, t)
    refused :
        {g : Framer} {d : List ℕ} {t : S}
        → ((rest : List ℕ)
            → (qs : List Packet) × (owed rest ≡ some qs) × (deliver on_packet qs s ≡ (false, t)))
        → g.initial_sync_failed ≡ false
        → Outcome owed s m (stop, g, d, t)
    lost :
        {g : Framer} {d : List ℕ} {t : S}
        → ((rest : List ℕ) → owed rest ≡ none)
        → t ≡ s
        → g.initial_sync_failed ≡ true
        → Outcome owed s m (stop, g, d, t)
