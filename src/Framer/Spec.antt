-- ===== src/Framer/Spec.antt =====
-- What the framer promises, over a whole stream of bytes and with no state: where it locks on, and
-- which packets it delivers.
pub mod Locked
pub mod Scan
pub mod Deliver
pub mod Recovery
pub mod Whole
use aribcap_dump.Prelude.{
  ℕ, zero, suc, ◌-◌, ◌*◌, Bool, true, false, ◌&&◌, ltb, leb, ◌==◌, Option, none, some, List, [],
  ◌∷◌, length, get_or, take,
}
use aribcap_dump.Framer.{Ts, Mode, initial_sync, seeking_sync, synced, Framer}

abbrev pub Packet : Type 0
Packet = List ℕ

module _ (ts : Ts) where
  abbrev pub sync_at : List ℕ → ℕ → Bool
  sync_at xs i = ltb i (length xs) && get_or xs i 0 == ts.sync_byte

  -- Four whole packets stand here, each starting with a sync byte.
  unfoldable pub probe : List ℕ → Bool
  probe xs =
      leb (4 * ts.pkt_size) (length xs)
      && (sync_at xs (0 * ts.pkt_size)
          && (sync_at xs (1 * ts.pkt_size)
              && (sync_at xs (2 * ts.pkt_size) && sync_at xs (3 * ts.pkt_size))))

  -- The packets of a stream, `skip` bytes after its head. A locked reader takes packet after packet
  -- while each starts with a sync byte; another one looks for the next probe.
  unfoldable pub frames : Bool → ℕ → List ℕ → List Packet
  frames locked skip [] = []
  frames locked (suc k) (b ∷ bs) = frames locked k bs
  frames false zero (b ∷ bs) = elim (probe (b ∷ bs)) [
    | true ↦ take ts.pkt_size (b ∷ bs) ∷ frames true (ts.pkt_size - 1) bs
    | false ↦ frames false zero bs
  ]
  frames true zero (b ∷ bs) = elim (b == ts.sync_byte) [
    | true ↦ elim (leb ts.pkt_size (length (b ∷ bs))) [
      | true ↦ take ts.pkt_size (b ∷ bs) ∷ frames true (ts.pkt_size - 1) bs
      | false ↦ []
    ]
    | false ↦ frames false zero bs
  ]

  -- At the start of a stream the first probe must lie within `tries` bytes.
  unfoldable pub initial_frames : ℕ → List ℕ → Option (List Packet)
  initial_frames zero bytes = none
  initial_frames (suc n) [] = none
  initial_frames (suc n) (b ∷ bs) = elim (probe (b ∷ bs)) [
    | true ↦ some (frames false zero (b ∷ bs))
    | false ↦ initial_frames n bs
  ]

  -- The packets of a whole stream; `none` where no sync is found within the first packet's length.
  unfoldable pub stream_frames : List ℕ → Option (List Packet)
  unfolding initial_frames
  stream_frames bytes = initial_frames ts.pkt_size bytes

  unfoldable pub expected_in : Mode → ℕ → List ℕ → Option (List Packet)
  expected_in initial_sync offset bytes = initial_frames (ts.pkt_size - offset) bytes
  expected_in seeking_sync offset bytes = some (frames false zero bytes)
  expected_in synced offset bytes = some (frames true zero bytes)

  -- What a framer in mid-stream still owes, when `rest` follows its buffered bytes.
  abbrev pub expected : Framer → List ℕ → Option (List Packet)
  expected f bytes = expected_in f.mode f.initial_offset bytes

-- A handler over a list of packets: it is called for each until it returns false.
unfoldable pub deliver : {S : Type 0} → (Packet → S → Bool × S) → List Packet → S → Bool × S
deliver on_packet [] s = (true, s)
deliver on_packet (p ∷ ps) s =
    let r = on_packet p s in elim r.0 [ true ↦ deliver on_packet ps r.1 | false ↦ (false, r.1) ]
