-- ===== src/Framer/Sample.antt =====
-- Packets of three bytes, and a stream that loses sync, for tests.
use aribcap_dump.Framer.Stream.{eof, chunk}
use aribcap_dump.Framer.Input.{got, SysRead}
use aribcap_dump.Framer.Spec.Whole.{IsPacket}
use aribcap_dump.Framer.Spec.{Packet}
use aribcap_dump.Framer.Stream.{Delivers}
use aribcap_dump.Framer.Spec.Recovery.{given_up, regained, Runs}
use aribcap_dump.Framer.{Ts}
use aribcap_dump.Prelude.{refl, [], ◌∷◌, ℕ, List, arith}

abbrev pub short : Ts
short = record {
  pkt_size = 3;
  sync_byte = 0x47;
  pkt_size_pos = omega arith;
  pkt_size_small = omega arith;
}

-- After the first four packets a byte of garbage and four more, and then garbage and three, which are
-- not delivered.
abbrev pub torn : List ℕ
torn =
    1 ∷ 0x47 ∷ 20 ∷ 0 ∷ 0x47 ∷ 21 ∷ 0 ∷ 0x47 ∷ 22 ∷ 0 ∷ 0x47 ∷ 23 ∷ 0 ∷ 2 ∷ 0x47 ∷ 24 ∷ 0 ∷ 0x47
    ∷ 25 ∷ 0 ∷ 0x47 ∷ 26 ∷ 0 ∷ []

abbrev pub marked : ℕ → Packet
marked n = 0x47 ∷ n ∷ 0 ∷ []

pub marked-IsPacket : (n : ℕ) → IsPacket short (marked n)
marked-IsPacket n = record { size = refl; sync = refl }

pub torn-Runs : Runs short (marked 20 ∷ marked 21 ∷ marked 22 ∷ marked 23 ∷ []) torn
torn-Runs =
    regained 1 [] (marked 20) (marked 21) (marked 22) (marked 23) refl
      (marked-IsPacket 20, marked-IsPacket 21, marked-IsPacket 22, marked-IsPacket 23)
      (given_up 2 (omega arith) (omega arith))

abbrev pub torn_reads : List SysRead
torn_reads =
    got (1 ∷ 0x47 ∷ 16 ∷ 0 ∷ 0x47 ∷ 17 ∷ 0 ∷ [])
    ∷ got (0x47 ∷ 18 ∷ 0 ∷ 0x47 ∷ 19 ∷ 0 ∷ torn)
    ∷ got []
    ∷ []

pub torn_reads-Delivers :
    Delivers torn_reads (1 ∷ 0x47 ∷ 16 ∷ 0 ∷ 0x47 ∷ 17 ∷ 0 ∷ 0x47 ∷ 18 ∷ 0 ∷ 0x47 ∷ 19 ∷ 0 ∷ torn)
torn_reads-Delivers =
    chunk 1 (0x47 ∷ 16 ∷ 0 ∷ 0x47 ∷ 17 ∷ 0 ∷ []) (omega arith)
      (chunk 0x47 (18 ∷ 0 ∷ 0x47 ∷ 19 ∷ 0 ∷ torn) (omega arith) eof)
