-- ===== src/Json/Tests.antt =====
-- Lines that the program prints, after tests/output_record_json_test.cc, and their reader.
use aribcap_dump.TsUtils.Rfc3339.{unix_ms_to_rfc3339_jst}
use aribcap_dump.Json.RoundTrip.{read_record-to_json}
use aribcap_dump.Prelude.Int.{pos}
use aribcap_dump.Json.Reading.{read_record}
use aribcap_dump.Json.Sample.{digits, quoted, hex, to_string, escaped, sample, escape}
use aribcap_dump.Json.{
  section_to_string, push_genres, genres_to_json, push_short_events, push_texts,
  short_events_to_json, ruby_to_json, diagnostic_to_json, eit_to_json, caption_to_json, to_json,
  to_json_line,
}
use aribcap_dump.Output.{
  caption, pcr_discontinuity, diagnostic, following, eit, EitRecord, CaptionRecord,
}
use aribcap_dump.Prelude.{◌++◌, none, true, arith, ◌≡◌, [], ◌∷◌, codes, some, refl}

abbrev on_time : CaptionRecord
on_time = record {
  time_ms = some (pos 1577804400000);
  text = codes "caption";
  ruby = codes "a" ∷ codes "b" ∷ [];
  color = some (codes "0xffff00ff");
  language_code = some (codes "jpn");
}

-- "caption serializes in JSONL shape"
caption_line :
    to_json_line sample (caption on_time)
    ≡ codes
        "{\"type\":\"caption\",\"time\":\"2020-01-01T00:00:00.000+09:00\",\"text\":\"caption\",\"ruby\":[\"a\",\"b\"],\"color\":\"0xffff00ff\",\"languageCode\":\"jpn\"}"
unfolding to_json_line sample to_string quoted escape escaped to_json caption_to_json ruby_to_json
    push_texts unix_ms_to_rfc3339_jst
caption_line = refl

-- "caption null time serializes as null"
caption_null_line :
    to_json_line sample (caption (record on_time { time_ms = none; ruby = []; color = none }))
    ≡ codes
        "{\"type\":\"caption\",\"time\":null,\"text\":\"caption\",\"ruby\":[],\"color\":null,\"languageCode\":\"jpn\"}"
unfolding to_json_line sample to_string quoted escape escaped to_json caption_to_json ruby_to_json
    push_texts unix_ms_to_rfc3339_jst
caption_null_line = refl

abbrev programme : EitRecord
programme = record {
  start_time_ms = some (pos 1577804400000);
  duration_sec = some 1800;
  short_events =
      record { event_name = codes "name"; text = codes "text"; language_code = codes "jpn" } ∷ [];
  extended_text = codes "extended";
  genres =
      record {
        content_nibble_level_1 = 7;
        content_nibble_level_2 = 1;
        user_nibble_1 = 15;
        user_nibble_2 = 15;
      }
      ∷ [];
  section = following;
  version = 5;
  service_id = 18432;
  transport_stream_id = 12345;
  original_network_id = 32736;
  event_id = 10;
}

-- "EIT serializes unit-suffixed camelCase fields"
eit_line :
    to_json_line sample (eit programme)
    ≡ codes "{\"type\":\"eit\",\"startTime\":\"2020-01-01T00:00:00.000+09:00\",\"durationSec\":1800"
      ++ (codes
            ",\"shortEvents\":[{\"eventName\":\"name\",\"text\":\"text\",\"languageCode\":\"jpn\"}]"
          ++ (codes ",\"extendedText\":\"extended\",\"genres\":["
              ++ (codes
                    "{\"contentNibbleLevel1\":7,\"contentNibbleLevel2\":1,\"userNibble1\":15,\"userNibble2\":15}]"
                  ++ (codes
                        ",\"section\":\"following\",\"version\":5,\"serviceId\":18432,\"transportStreamId\":12345"
                      ++ codes ",\"originalNetworkId\":32736,\"eventId\":10}"))))
unfolding to_json_line sample to_string quoted escape escaped to_json eit_to_json
    short_events_to_json push_short_events genres_to_json push_genres section_to_string digits
    unix_ms_to_rfc3339_jst
eit_line = refl

-- "PCR discontinuity diagnostic serializes with its flagged marker"
diagnostic_line :
    to_json_line sample (diagnostic (pcr_discontinuity (record { pid = 256; flagged = true })))
    ≡ codes "{\"type\":\"diagnostic\",\"kind\":\"pcrDiscontinuity\",\"pid\":256,\"flagged\":true}"
unfolding to_json_line sample to_string quoted escape escaped to_json diagnostic_to_json digits
diagnostic_line = refl

-- A control character and the two that JSON escapes.
escaped_line : escape (1 ∷ b'"' ∷ b'\\' ∷ []) ≡ codes "\\u0001\\\"\\\\"
unfolding escape escaped hex
escaped_line = refl

read_record-to_json_example :
    read_record sample (to_json sample (eit programme)) ≡ some (eit programme)
read_record-to_json_example =
    read_record-to_json sample (eit programme)
      (record { after = omega arith; before = omega arith })
