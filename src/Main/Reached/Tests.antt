-- ===== src/Main/Reached/Tests.antt =====
-- What is printed of streams with events, and of one with captions.
use aribcap_dump.Main.Sample.{packets, reads, options, piped, colliding}
use aribcap_dump.Dumper.Times.{HasTime}
use aribcap_dump.Dumper.Fits.{IsTimeThatFits, IsTimelyTable}
use aribcap_dump.TsUtils.{jst_time_to_unix_ms}
use aribcap_dump.Main.Reached.{printed-AllFit, dump_all-IsValid, printed-AllWanted}
use aribcap_dump.Service.Setting.{AllWanted}
use aribcap_dump.Service.Invariant.{IsValid}
use aribcap_dump.Main.Delivery.{fresh_dumper, dump_all, printed}
use aribcap_dump.Framer.Sample.{short}
use aribcap_dump.Sink.Sample.{text_stream}
use aribcap_dump.Eit.Emitter.{only_present}
use aribcap_dump.Json.Sample.{sample}
use aribcap_dump.Dumper.Sample.{
  caption_packet, pmt, tot, pat, pcr_packet, delivering_all, event_of, delivering_tables,
}
use aribcap_dump.Main.{Host}
use aribcap_dump.Service.{pmt_table, tot_table, pat_table, eit_table, Externals}
use aribcap_dump.Prelude.{All, arith, [], ◌∷◌, false}

dump_all-IsValid_example :
    IsValid colliding
      (dump_all colliding sample text_stream short
        (piped reads)
        (fresh_dumper colliding sample text_stream short (piped reads) 101 options)
        packets).0
dump_all-IsValid_example =
    dump_all-IsValid colliding sample text_stream short (piped reads) 101 options packets

-- Every packet delivers an event of another service and one of the target service.
abbrev eventful : Externals
eventful = delivering_tables (eit_table (event_of 102 7) ∷ eit_table (event_of 101 8) ∷ [])

printed-AllWanted_example :
    AllWanted 101 false only_present
      (printed eventful sample text_stream short (piped reads) 101 options packets)
printed-AllWanted_example =
    printed-AllWanted eventful sample text_stream short (piped reads) 101 options packets

-- Every packet has the PCR 8100, and delivers the PAT, the PMT, a TOT and a caption.
abbrev captioned : Externals
captioned =
    delivering_all (pat_table pat ∷ pmt_table pmt ∷ tot_table tot ∷ []) (caption_packet ∷ [])

abbrev with_pcr : Host
with_pcr = record (piped reads) { parse_packet = λ bytes. pcr_packet }

tot-IsTimelyTable : IsTimelyTable (tot_table tot)
unfolding jst_time_to_unix_ms
tot-IsTimelyTable ms e = ground (arith, e)

printed-AllFit_example :
    All
      (HasTime IsTimeThatFits)
      (printed captioned sample text_stream short with_pcr 101 options packets)
printed-AllFit_example =
    printed-AllFit captioned sample text_stream short with_pcr 101 options packets
      (deliver, (deliver, (deliver, (deliver, tt))))
  where
    deliver : All IsTimelyTable (pat_table pat ∷ pmt_table pmt ∷ tot_table tot ∷ [])
    deliver = (tt, (tt, (tot-IsTimelyTable, tt)))
