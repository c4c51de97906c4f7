-- ===== src/Lib.antt =====
-- aribcap-dump reads an MPEG transport stream from a file or from its standard input, and prints the
-- ARIB captions and the EIT events of one service as lines of JSON.
--
-- The parts, in the order in which the bytes pass through them:
--   - src/core/packet_framer: `PacketFramer` cuts the bytes that are read into packets of 188 bytes and
--     finds the packets' alignment again after a loss of it (Framer; Framer/Input reads until the end of
--     the file; Framer/Spec describes the packets of a whole stream, with no buffer and no mode);
--   - src/core/caption_dumper: `CaptionDumper` gives each packet to the clock and to the demultiplexers
--     of TSDuck, and handles the tables and the PES packets that these deliver (Service: the state and
--     the streams of the service; Dumper: the handlers; `FeedPacket` is `dump_packet`, `Flush` is
--     `flush_dumper`; Service/Traversal and Dumper/Traversal carry an invariant of the state, and a
--     property of the records, through the loops);
--   - src/core/program_clock: `ProgramClock` maps the presentation times of PES packets to Unix
--     milliseconds, from the PCRs and the TOTs (Clock);
--   - src/core/caption_classifier: which streams of a PMT are captions (Classifier);
--   - src/core/caption_record_emitter: `CaptionRecordEmitter` decodes the PES packets of one stream
--     (Captions);
--   - src/core/eit_parser and src/core/eit_record_emitter: from an EIT to records, and which of them
--     are printed (Eit, Eit/Emitter);
--   - src/core/ts_utils: times (TsUtils; TsUtils/Rfc3339 prints them,
--     and TsUtils/Rfc3339/Reading is a reader of its own); src/core/output_record: the
--     records (Output) and their JSON texts (Json);
--   - src/core/output_record_sink: the sinks, one that writes lines to a stream and one that keeps the
--     records for a test (Sink, Sink/Vector);
--   - src/main.cc: `Run`, from the input to the exit status (Main), and `main`, from the command line
--     (Main/CommandLine). Main/Laws, Main/Complete, Main/Whole, Main/Success and Main/Fault show how a run
--     ends, Main/Reached what holds during it.
-- Prelude holds what they share: tests of numbers, lists, maps, signed integers, texts.
--
-- A class is a record of its members and an operation is a function from the old state to the new one and
-- what it gives to the sink, in order. A byte is a number, a pointer into a buffer is the list of the
-- bytes from there on, `std::map` is a list in the order of its keys. The arithmetic of `size_t` in the
-- framer keeps its wrap-around; the clock's signed 64-bit numbers are integers, whose width is the
-- subject of Clock/Bounds and Dumper/Fits.
--
-- The framer's loop runs on fuel, one unit for each turn: twice the size of the chunk and two more, which
-- a theorem shows to be enough. The search for a year of the calendar has as much fuel as its period has
-- years. All other loops recur on lists.
--
-- Code of other projects is a parameter, and its laws stand in the record of that name. Of TSDuck: the
-- constants and the distance of two time stamps (`Timing`), the demultiplexers (`Demux`: a filter of PIDs,
-- and what is delivered for a packet; the handlers are called once the demultiplexer has taken the
-- packet), the reading of 16 bits (`PtsReader`), the service of an EIT's table (`EitTable`). Of libaribcaption: the decoders (`Decoders`, which
-- `AribCaptionDecoder` makes of `AribCaption`). Then jsoncons (`JsonLibrary`), the output stream
-- (`Ostream`), the command line as CLI11 reads it (`CommandLine`), and the answers of open(2) and read(2)
-- (`Host`). What TSDuck reads from a packet, a table or a descriptor is a record of values. The modules
-- called Sample fill these records for the tests.
--
-- Not modelled: the closing of the file in src/main.cc, the asserts on the kinds of tables, and a write or
-- a flush that throws.
pub mod Captions
pub mod Classifier
pub mod Clock
pub mod Dumper
pub mod Eit
pub mod Framer
pub mod Json
pub mod Main
pub mod Output
pub mod Prelude
pub mod Service
pub mod Sink
pub mod TsUtils
