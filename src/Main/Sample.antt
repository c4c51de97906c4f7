-- ===== src/Main/Sample.antt =====
-- A program whose packets have three bytes and each deliver a PAT that gives the target service's PMT the
-- PID of the EIT, and an input for it.
use aribcap_dump.Framer.Sample.{short}
use aribcap_dump.Eit.Emitter.{only_present}
use aribcap_dump.Framer.Input.{interrupted, got, SysRead}
use aribcap_dump.Dumper.Sample.{packet, delivering}
use aribcap_dump.Framer.Spec.{frames, probe, initial_frames, Packet, stream_frames}
use aribcap_dump.Framer.Stream.{eof, chunk, Delivers}
use aribcap_dump.Main.{Host, CaptionDumperOptions}
use aribcap_dump.Service.{Externals}
use aribcap_dump.Prelude.{some, ◌≡◌, arith, none, [], ◌∷◌, true, ℕ, false, List, refl}

abbrev pub colliding : Externals
colliding = delivering (record { is_valid = true; pmts = (101, 18) ∷ [] })

abbrev pub piped : List SysRead → Host
piped reads = record { parse_packet = λ bytes. packet; stdin = reads; open_file = λ path. none }

abbrev pub options : CaptionDumperOptions
options = record { emit_empty_captions = false; eit_output = only_present }

-- A byte of garbage, and four packets.
abbrev pub tape : List ℕ
tape = 0 ∷ 0x47 ∷ 1 ∷ 0 ∷ 0x47 ∷ 2 ∷ 0 ∷ 0x47 ∷ 3 ∷ 0 ∷ 0x47 ∷ 4 ∷ 0 ∷ []

abbrev pub packets : List Packet
packets = (0x47 ∷ 1 ∷ 0 ∷ []) ∷ (0x47 ∷ 2 ∷ 0 ∷ []) ∷ (0x47 ∷ 3 ∷ 0 ∷ []) ∷ (0x47 ∷ 4 ∷ 0 ∷ []) ∷ []

abbrev pub reads : List SysRead
reads = got tape ∷ interrupted ∷ got [] ∷ []

pub reads-Delivers : Delivers reads tape
reads-Delivers =
    chunk 0 (0x47 ∷ 1 ∷ 0 ∷ 0x47 ∷ 2 ∷ 0 ∷ 0x47 ∷ 3 ∷ 0 ∷ 0x47 ∷ 4 ∷ 0 ∷ []) (omega arith)
      (Delivers.retry eof)

pub tape_frames : stream_frames short tape ≡ some packets
unfolding stream_frames initial_frames probe frames
tape_frames = refl
