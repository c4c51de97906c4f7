-- ===== src/TsUtils/Tests.antt =====
-- Runs of the PTS parser, and the printed times.
use aribcap_dump.TsUtils.Rfc3339.Reading.{digit_value, digits, read_offset, read_time, read_rfc3339}
use aribcap_dump.TsUtils.Sample.{get_or_byte}
use aribcap_dump.TsUtils.Fields.{parse_pes_pts_iff, CarriesPts}
use aribcap_dump.TsUtils.Rfc3339.RoundTrip.{read_rfc3339-unix_ms_to_rfc3339_jst}
use aribcap_dump.Prelude.Int.{negsuc, pos}
use aribcap_dump.TsUtils.Rfc3339.{unix_ms_to_rfc3339_jst}
use aribcap_dump.TsUtils.Pts.{encode_pts}
use aribcap_dump.TsUtils.{PesPacket, parse_pes_pts, PtsReader}
use aribcap_dump.Prelude.{
  none, ◌↔◌, codes, arith, some, ◌≡◌, [], ◌++◌, ◌^◌, ◌%◌, ◌∷◌, ◌+◌, true, ◌*◌, refl,
}

abbrev reader : PtsReader
reader = record {
  get_uint16 = λ a b. a * 256 + b;
  pts_dts_mask = λ a. a % 2 ^ 33;
  get_uint16_eq = λ a b. refl;
  pts_dts_mask_eq = λ a. refl;
}

-- A PTS with a DTS after it.
abbrev timed : PesPacket
timed = record {
  source_pid = 256;
  has_long_header = true;
  header =
      0
      ∷ 0
      ∷ 1
      ∷ 189
      ∷ 0
      ∷ 0
      ∷ 128
      ∷ 192
      ∷ 10
      ∷ (encode_pts 3 8589934591 ++ (17 ∷ 0 ∷ 1 ∷ 0 ∷ 1 ∷ []));
  payload = [];
}

parse_pes_pts_iff_example :
    (parse_pes_pts reader timed ≡ some 8589934591) ↔ CarriesPts timed 8589934591
parse_pes_pts_iff_example =
    parse_pes_pts_iff reader timed 8589934591 (λ i. get_or_byte timed.header i refl)

-- After tests/ts_utils_test.cc.
test_rfc3339 : unix_ms_to_rfc3339_jst (pos 1577804400123) ≡ codes "2020-01-01T00:00:00.123+09:00"
unfolding unix_ms_to_rfc3339_jst
test_rfc3339 = refl

test_rfc3339_epoch : unix_ms_to_rfc3339_jst (pos 0) ≡ codes "1970-01-01T09:00:00.000+09:00"
unfolding unix_ms_to_rfc3339_jst
test_rfc3339_epoch = refl

test_rfc3339_leap :
    unix_ms_to_rfc3339_jst (pos 1582934400000) ≡ codes "2020-02-29T09:00:00.000+09:00"
unfolding unix_ms_to_rfc3339_jst
test_rfc3339_leap = refl

test_rfc3339_before :
    unix_ms_to_rfc3339_jst (negsuc 32400000) ≡ codes "1969-12-31T23:59:59.999+09:00"
unfolding unix_ms_to_rfc3339_jst
test_rfc3339_before = refl

-- The last millisecond of the year 9999, in Japan.
read_rfc3339-unix_ms_to_rfc3339_jst_example :
    read_rfc3339 (unix_ms_to_rfc3339_jst (pos 253402268399999)) ≡ some (pos 253402268399999)
read_rfc3339-unix_ms_to_rfc3339_jst_example =
    read_rfc3339-unix_ms_to_rfc3339_jst (pos 253402268399999)
      (record { after = omega arith; before = omega arith })

-- The reader takes any time zone, and no date that does not exist.
test_read :
    (read_rfc3339 (codes "1970-01-01T00:00:00.001+00:00") ≡ some (pos 1))
    × (read_rfc3339 (codes "1969-12-31T19:00:00.000-05:00") ≡ some (pos 0))
    × (read_rfc3339 (codes "2023-02-29T00:00:00.000+09:00") ≡ none)
    × (read_rfc3339 (codes "2024-04-31T00:00:00.000+09:00") ≡ none)
    × (read_rfc3339 (codes "2024-04-30 00:00:00.000+09:00") ≡ none)
    × (read_rfc3339 (codes "2024-04-30T00:00:00.000") ≡ none)
unfolding read_rfc3339 read_time read_offset digits digit_value
test_read = (refl, refl, refl, refl, refl, refl)
