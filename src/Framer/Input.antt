-- ===== src/Framer/Input.antt =====
-- core/packet_framer.cc: `FeedUntilEof`, `FinishAtEof`, `FdByteReader` and `ReadAndFramePackets`.
-- `read(2)` is the operating system's: its answers are a list, and a run that asks for more answers
-- than the list holds is `none`.
use aribcap_dump.Prelude.{
  ℕ, ◌*◌, Bool, true, false, not, if◌then◌else◌, Option, none, some, List, [], ◌∷◌,
}
use aribcap_dump.Framer.{Ts, Mode, initial_sync, Framer, fresh, Fed, feed}

-- An answer of `read(2)`: interrupted by a signal (`EINTR`), another error, or bytes; no bytes at
-- the end of the file.
pub data SysRead : Type 0 where
  interrupted failed : SysRead
  got : List ℕ → SysRead

-- An answer of `ByteReader::Read`: a negative count, or the bytes put into the buffer.
pub data ReadResult : Type 0 where
  read_error : ReadResult
  read_bytes : List ℕ → ReadResult

abbrev pub chunk_size : ℕ
chunk_size = 64 * 1024

-- `FdByteReader::Read`, called again and again: it repeats a read that was interrupted.
unfoldable pub fd_reads : List SysRead → List ReadResult
fd_reads [] = []
fd_reads (interrupted ∷ rs) = fd_reads rs
fd_reads (failed ∷ rs) = read_error ∷ fd_reads rs
fd_reads (got bytes ∷ rs) = read_bytes bytes ∷ fd_reads rs

abbrev pub finish_mode : Mode → Framer → Framer
finish_mode initial_sync f = record f { initial_sync_failed = true }
finish_mode _ f = f

unfoldable pub finish_at_eof : Framer → Framer
finish_at_eof f = finish_mode f.mode f

pub data ReadFrameStatus : Type 0 where
  ok failed no_sync : ReadFrameStatus

module _ {S : Type 0} (ts : Ts) (on_packet : List ℕ → S → Bool × S) where
  unfoldable pub feed_until_eof : Framer → List ReadResult → S → Option (Fed ts on_packet)
  feed_until_eof f [] s = none
  feed_until_eof f (read_error ∷ rs) s = some (false, f, s)
  feed_until_eof f (read_bytes [] ∷ rs) s =
      let g = finish_at_eof f in some (not g.initial_sync_failed, g, s)
  feed_until_eof f (read_bytes (b ∷ bs) ∷ rs) s = elim (feed ts on_packet f (b ∷ bs) s) [
    | none ↦ none
    | some (more, g, t) ↦ elim more [ true ↦ feed_until_eof g rs t | false ↦ some (false, g, t) ]
  ]

  abbrev pub status_of : Fed ts on_packet → ReadFrameStatus × S
  status_of (done, f, s) =
      if f.initial_sync_failed
      then (no_sync, s)
      else if done
      then (ReadFrameStatus.ok, s)
      else (ReadFrameStatus.failed, s)

  unfoldable pub read_and_frame_packets : List SysRead → S → Option (ReadFrameStatus × S)
  read_and_frame_packets rs s = elim (feed_until_eof fresh (fd_reads rs) s) [
    | none ↦ none
    | some r ↦ some (status_of r)
  ]
