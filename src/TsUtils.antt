-- ===== src/TsUtils.antt =====
-- core/ts_utils.hpp and core/ts_utils.cc: the times of a stream.
-- A byte is a number below 256; a mask of its bits is written with `/` and `%`.
pub mod Fields
pub mod Pts
pub mod Rfc3339
pub mod Sample
mod Tests
use aribcap_dump.Prelude.{
  length, ltb, ◌||◌, not, ◌^◌, ◌&&◌, ◌+◌, get_or, ◌*◌, ◌==◌, ◌%◌, ◌/◌, ◌≡◌, List, ℕ, some, none,
  if◌then◌else◌, Option, Bool,
}
use aribcap_dump.Prelude.Int.{pos, ℤ}

-- What `ts::Time` tells of a time in UTC: whether it lies before the Unix epoch, and the
-- milliseconds since.
pub record UtcTime : Type 0 where
  pub before_unix_epoch : Bool
  pub since_unix_epoch : ℤ

-- A time in JST: whether it is `ts::Time::Epoch`, and `JSTToUTC` of it.
pub record JstTime : Type 0 where
  pub is_epoch : Bool
  pub jst_to_utc : UtcTime

unfoldable pub jst_time_to_unix_ms : JstTime → Option ℤ
jst_time_to_unix_ms time =
    if time.is_epoch
    then none
    else if time.jst_to_utc.before_unix_epoch
    then none
    else some time.jst_to_utc.since_unix_epoch

-- What `ts::PESPacket` tells of a packet: its header (`headerSize` bytes) and its payload.
pub record PesPacket : Type 0 where
  pub source_pid : ℕ
  pub has_long_header : Bool
  pub header : List ℕ
  pub payload : List ℕ

-- `ts::GetUInt16`, which reads two bytes, and the mask `ts::PTS_DTS_MASK` as a function.
pub record PtsReader : Type 0 where
  pub get_uint16 : ℕ → ℕ → ℕ
  pub pts_dts_mask : ℕ → ℕ
  pub get_uint16_eq : (a b : ℕ) → get_uint16 a b ≡ a * 256 + b
  pub pts_dts_mask_eq : (a : ℕ) → pts_dts_mask a ≡ a % 2 ^ 33

-- `b & 0xC0`, `b & 0xF1`, `b & 0x0E` and `b & 0x01` of a byte, and `a & 0xFFFE` of two.
abbrev pub mask_c0 : ℕ → ℕ
mask_c0 b = b / 64 * 64

abbrev pub mask_f1 : ℕ → ℕ
mask_f1 b = b / 16 * 16 + b % 2

abbrev pub mask_0e : ℕ → ℕ
mask_0e b = b % 16 / 2 * 2

abbrev pub mask_fffe : ℕ → ℕ
mask_fffe a = a / 2 * 2

abbrev pub header_byte : PesPacket → ℕ → ℕ
header_byte packet i = get_or packet.header i 0

-- The tests of the two flags and of the markers of the field.
pub has_bad_marker : ℕ → ℕ → ℕ → ℕ → Bool
has_bad_marker pts_dts_flags b0 b2 b4 =
    (pts_dts_flags == 0x80 && not (mask_f1 b0 == 0x21))
    || (pts_dts_flags == 0xC0 && not (mask_f1 b0 == 0x31))
    || (not (b2 % 2 == 1) || not (b4 % 2 == 1))

module _ (reader : PtsReader) where
  abbrev pub read_pts_field : ℕ → ℕ → ℕ → ℕ → ℕ → ℕ
  read_pts_field b0 b1 b2 b3 b4 = reader.pts_dts_mask (
      mask_0e b0 * 2 ^ 29
      + mask_fffe (reader.get_uint16 b1 b2) * 2 ^ 14
      + reader.get_uint16 b3 b4 / 2)

  -- The fields of the disjunction do not overlap, so `|` is a sum.
  pub parse_pes_pts : PesPacket → Option ℕ
  unfolding has_bad_marker
  parse_pes_pts packet =
      let pts_dts_flags = mask_c0 (header_byte packet 7) in
      if not packet.has_long_header || ltb (length packet.header) 14
      then none
      else if not (pts_dts_flags == 0x80) && not (pts_dts_flags == 0xC0)
      then none
      else if has_bad_marker pts_dts_flags (header_byte packet 9) (header_byte packet 11)
          (header_byte packet 13)
      then none
      else some (
          read_pts_field (header_byte packet 9) (header_byte packet 10) (header_byte packet 11)
            (header_byte packet 12) (header_byte packet 13))

  pub pts_90k_to_ms : ℕ → ℤ
  pts_90k_to_ms pts = pos (reader.pts_dts_mask pts * 1000 / 90000)
