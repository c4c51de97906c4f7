-- ===== src/TsUtils/Pts.antt =====
-- The PTS that a PES header carries.
use aribcap_dump.TsUtils.{
  has_bad_marker, mask_fffe, mask_0e, read_pts_field, parse_pes_pts, PtsReader,
}
use aribcap_dump.Prelude.{
  inr, false, inl, arith, ap₂, ◌∙◌, some, ◌++◌, true, [], ◌⊎◌, ◌%◌, ◌∷◌, ◌≡◌, ◌/◌, ◌+◌, ◌^◌, ◌*◌,
  ◌<◌, List, ℕ,
}

-- The five bytes of ISO/IEC 13818-1: a prefix, then 3, 15 and 15 bits, each with a marker after it.
abbrev pub encode_pts : ℕ → ℕ → List ℕ
encode_pts prefix v =
    (prefix * 16 + v / 2 ^ 30 * 2 + 1)
    ∷ v / 2 ^ 22 % 256
    ∷ (v / 2 ^ 15 % 128 * 2 + 1)
    ∷ v / 2 ^ 7 % 256
    ∷ (v % 128 * 2 + 1)
    ∷ []

read_pts_field_lem :
    (reader : PtsReader) (prefix v : ℕ)
    → v < 2 ^ 33
    → read_pts_field reader
        (prefix * 16 + v / 2 ^ 30 * 2 + 1)
        (v / 2 ^ 22 % 256)
        (v / 2 ^ 15 % 128 * 2 + 1)
        (v / 2 ^ 7 % 256)
        (v % 128 * 2 + 1)
      ≡ v
read_pts_field_lem reader prefix v small =
    reader.pts_dts_mask_eq _
    ∙ ap₂
        (λ a b.
          (mask_0e (prefix * 16 + v / 2 ^ 30 * 2 + 1) * 2 ^ 29 + mask_fffe a * 2 ^ 14 + b / 2)
          % 2 ^ 33)
        (reader.get_uint16_eq _ _) (reader.get_uint16_eq _ _)
    ∙ omega arith

has_bad_marker-encode :
    (prefix v : ℕ)
    → v < 2 ^ 33
    → (prefix ≡ 2) ⊎ (prefix ≡ 3)
    → has_bad_marker
        (prefix * 64)
        (prefix * 16 + v / 2 ^ 30 * 2 + 1)
        (v / 2 ^ 15 % 128 * 2 + 1)
        (v % 128 * 2 + 1)
      ≡ false
unfolding has_bad_marker
has_bad_marker-encode prefix v small f = ground arith

-- A 33-bit PTS that a long PES header carries, alone or before a DTS, is read back.
pub parse_pes_pts-encode :
    (reader : PtsReader) (v flags h0 h1 h2 h3 h4 h5 h6 : ℕ) (rest payload : List ℕ) (pid size : ℕ)
    → v < 2 ^ 33
    → (flags / 64 ≡ 2) ⊎ (flags / 64 ≡ 3)
    → parse_pes_pts reader (record {
      source_pid = pid;
      has_long_header = true;
      header =
          h0 ∷ h1 ∷ h2 ∷ h3 ∷ h4 ∷ h5 ∷ h6 ∷ flags ∷ size ∷ (encode_pts (flags / 64) v ++ rest);
      payload = payload;
    })
      ≡ some v
unfolding parse_pes_pts
parse_pes_pts-encode reader v flags h0 h1 h2 h3 h4 h5 h6 rest payload pid size small f = elim f [
  | inl e ↦ rw e (ground (arith, read_pts_field_lem reader 2 v small))
  | inr e ↦ rw e (ground (arith, read_pts_field_lem reader 3 v small))
]
