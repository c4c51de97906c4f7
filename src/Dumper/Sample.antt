-- ===== src/Dumper/Sample.antt =====
-- An environment of the dumper, for tests: demultiplexers whose filter is a list of PIDs.
use aribcap_dump.Classifier.{Stream}
use aribcap_dump.TsUtils.{PesPacket}
use aribcap_dump.Prelude.Int.{pos}
use aribcap_dump.Captions.{got_caption}
use aribcap_dump.Clock.{Tot, TsPacket, Timing}
use aribcap_dump.Service.{Pmt, EitTable, Table, pat_table, Demux, Externals, Pat}
use aribcap_dump.Prelude.{
  some, ◌&&◌, ◌||◌, arith, ◌==◌, ◌%◌, [], not, if◌then◌else◌, false, ◌+◌, ◌-◌, ◌∷◌, ◌≡◌, ◌∷◌, Bool,
  ◌*◌, ◌^◌, true, ℕ, List, refl,
}

abbrev pub has : List ℕ → ℕ → Bool
has [] q = false
has (p ∷ ps) q = (p == q) || has ps q

abbrev pub without : List ℕ → ℕ → List ℕ
without [] p = []
without (q ∷ qs) p = let rest = without qs p in if p == q then rest else q ∷ rest

pub has-without : (s : List ℕ) (p q : ℕ) → has (without s p) q ≡ not (p == q) && has s q
has-without [] p q = ground arith
has-without (a ∷ s) p q = ground (arith, has-without s p q)

-- It delivers the same for every packet.
abbrev pub demux : {D : Type 0} → List D → Demux D
demux ds = record {
  State = List ℕ;
  has_pid = has;
  add_pid = λ s p. p ∷ s;
  remove_pid = without;
  feed_packet = λ s packet. (s, ds);
  flush = λ s. (s, []);
  has_pid-add_pid = λ s p q. refl;
  has_pid-remove_pid = has-without;
  has_pid-feed_packet = λ s packet q. refl;
  has_pid-flush = λ s q. refl;
}

abbrev pub pat : Pat
pat = record { is_valid = true; pmts = (101, 500) ∷ (102, 501) ∷ [] }

abbrev pub mpeg : Timing
mpeg = record {
  pid_null = 0x1FFF;
  invalid_pcr = 2 ^ 64 - 1;
  max_pcr = 2 ^ 33 * 300 - 1;
  max_pts_dts = 2 ^ 33 - 1;
  diff_pts = λ a b. (b + 2 ^ 33 - a) % 2 ^ 33;
  max_pts_dts_eq = omega arith;
  max_pcr-le = omega arith;
  diff_pts-le = λ a b h k. omega arith;
  diff_pts-add = λ a b h k. omega arith;
}

pub reserved_eq :
    (p : ℕ) → has (0 ∷ 18 ∷ 39 ∷ 20 ∷ []) p ≡ (0 == p) || ((18 == p) || ((39 == p) || (20 == p)))
reserved_eq p = ground arith

-- Every packet delivers the tables and, if its PID is wanted, the PES packets. The decoder counts what
-- it has decoded, and finds the payload as a text.
abbrev pub delivering_all : List Table → List PesPacket → Externals
delivering_all tables packets = record {
  timing = mpeg;
  reader = record {
    get_uint16 = λ a b. a * 256 + b;
    pts_dts_mask = λ a. a % 2 ^ 33;
    get_uint16_eq = λ a b. refl;
    pts_dts_mask_eq = λ a. refl;
  };
  decoders = record {
    Decoder = ℕ;
    create = λ profile language. 0;
    decode = λ n payload pts_ms. (
      n + 1,
      got_caption (record { text = payload; iso6392_language_code = 6975598; regions = [] }),
    );
    query_iso6392_language_code = λ n language. n;
  };
  section = demux tables;
  pes = demux packets;
  new_section_demux = 0 ∷ 18 ∷ 39 ∷ 20 ∷ [];
  new_pes_demux = [];
  pid_pat = 0;
  pid_eit = 18;
  pid_isdb_eit_3 = 39;
  pid_tot = 20;
  st_pes_priv = 6;
  eit_payload_fixed_size = 6;
  new_section_demux_eq = reserved_eq;
  new_pes_demux_eq = λ p. refl;
}

abbrev pub delivering_tables : List Table → Externals
delivering_tables tables = delivering_all tables []

abbrev pub delivering : Pat → Externals
delivering table = delivering_tables (pat_table table ∷ [])

abbrev pub externals : Externals
externals = delivering pat

abbrev pub packet : TsPacket
packet = record {
  pid = 0;
  has_valid_sync = true;
  has_pcr = false;
  pcr = 0;
  discontinuity_indicator = false;
}

-- The present event of a service.
abbrev pub event_of : ℕ → ℕ → EitTable
event_of sid event_id = record {
  is_valid = true;
  table_id_extension = sid;
  version = 1;
  eit = record {
    is_valid = true;
    service_id = sid;
    ts_id = 1;
    onetw_id = 2;
    events =
        record {
          event_id = event_id;
          start_time = record {
            is_epoch = false;
            jst_to_utc = record { before_unix_epoch = false; since_unix_epoch = pos 1000 };
          };
          duration = pos 1800;
          descs = [];
        }
        ∷ [];
  };
  present_section = some (record { is_valid = true; payload_size = 30 });
  service_id_eq = λ v. refl;
}

abbrev pub caption_stream : Stream
caption_stream = record {
  stream_type = 6;
  component_tag = some 0x30;
  data_component_index = 1;
  descriptor_count = 1;
  data_component_id = 0;
}

-- A PES packet of PID 256, with a PTS.
abbrev pub caption_packet : PesPacket
caption_packet = record {
  source_pid = 256;
  has_long_header = true;
  header = 0 ∷ 0 ∷ 1 ∷ 0xBD ∷ 0 ∷ 0 ∷ 0x80 ∷ 0x80 ∷ 5 ∷ 0x21 ∷ 0 ∷ 1 ∷ 0 ∷ 1 ∷ [];
  payload = 65 ∷ [];
}

abbrev pub pmt : Pmt
pmt = record {
  is_valid = true;
  source_pid = 500;
  service_id = 101;
  pcr_pid = 256;
  streams = (256, caption_stream) ∷ [];
}

abbrev pub tot : Tot
tot = record {
  is_valid = true;
  utc_time = record {
    is_epoch = false;
    jst_to_utc = record { before_unix_epoch = false; since_unix_epoch = pos 5000 };
  };
}

-- A packet of PID 256, with a PCR.
abbrev pub pcr_packet : TsPacket
pcr_packet = record packet { pid = 256; has_pcr = true; pcr = 8100 }
