-- ===== src/TsUtils/Fields.antt =====
-- Exactly which PES packets carry a PTS.
use aribcap_dump.TsUtils.Pts.{encode_pts}
use aribcap_dump.TsUtils.{
  header_byte, mask_fffe, mask_0e, mask_c0, has_bad_marker, read_pts_field, parse_pes_pts,
  PtsReader, PesPacket,
}
use aribcap_dump.Prelude.{
  ap, sym, ◌↔◌, false, ◌%◌, ◌∷◌, ◌≡◌, ◌/◌, ◌+◌, ◌^◌, ◌*◌, ◌<◌, ◌≤◌, List, ℕ, arith, ◌⊎◌, ap₂, ◌∙◌,
  [], length, true, some,
}

-- The five bytes of the PTS.
abbrev pub pts_field : PesPacket → List ℕ
pts_field packet =
    header_byte packet 9
    ∷ header_byte packet 10
    ∷ header_byte packet 11
    ∷ header_byte packet 12
    ∷ header_byte packet 13
    ∷ []

-- A long header with the flags of a PTS, alone (2) or before a DTS (3), and the field of ISO/IEC
-- 13818-1 with the prefix that the flags ask for.
pub record CarriesPts (packet : PesPacket) (pts : ℕ) : Type 0 where
  pub long : packet.has_long_header ≡ true
  pub size : 14 ≤ length packet.header
  pub flags : (header_byte packet 7 / 64 ≡ 2) ⊎ (header_byte packet 7 / 64 ≡ 3)
  pub small : pts < 2 ^ 33
  pub field : pts_field packet ≡ encode_pts (header_byte packet 7 / 64) pts

-- Five bytes with the prefix `f` and the markers are those of the number in them.
encode_pts-value :
    (f b0 b1 b2 b3 b4 : ℕ)
    → b0 / 16 ≡ f
    → b1 < 256
    → b2 < 256
    → b3 < 256
    → b4 < 256
    → b0 % 2 ≡ 1
    → b2 % 2 ≡ 1
    → b4 % 2 ≡ 1
    → let v =
        (b0 % 16 / 2 * 2 * 2 ^ 29 + (b1 * 256 + b2) / 2 * 2 * 2 ^ 14 + (b3 * 256 + b4) / 2)
        % 2 ^ 33 in
      b0 ∷ b1 ∷ b2 ∷ b3 ∷ b4 ∷ [] ≡ encode_pts f v
encode_pts-value f b0 b1 b2 b3 b4 p l1 l2 l3 l4 m0 m2 m4 =
    let v =
      (b0 % 16 / 2 * 2 * 2 ^ 29 + (b1 * 256 + b2) / 2 * 2 * 2 ^ 14 + (b3 * 256 + b4) / 2)
      % 2 ^ 33 in
    let e : v ≡ b0 % 16 / 2 * 2 ^ 30 + (b1 * 128 + b2 / 2) * 2 ^ 15 + (b3 * 128 + b4 / 2) =
      omega arith in
    let e0 : b0 ≡ f * 16 + v / 2 ^ 30 * 2 + 1 = omega (arith, e) in
    let e1 : b1 ≡ v / 2 ^ 22 % 256 = omega (arith, e) in
    let e2 : b2 ≡ v / 2 ^ 15 % 128 * 2 + 1 = omega (arith, e) in
    let e3 : b3 ≡ v / 2 ^ 7 % 256 = omega (arith, e) in
    let e4 : b4 ≡ v % 128 * 2 + 1 = omega (arith, e) in cc

bytes_of :
    (b0 b1 b2 b3 b4 c0 c1 c2 c3 c4 : ℕ)
    → b0 ∷ b1 ∷ b2 ∷ b3 ∷ b4 ∷ [] ≡ c0 ∷ c1 ∷ c2 ∷ c3 ∷ c4 ∷ []
    → (b0 ≡ c0) × (b1 ≡ c1) × (b2 ≡ c2) × (b3 ≡ c3) × (b4 ≡ c4)
bytes_of b0 b1 b2 b3 b4 c0 c1 c2 c3 c4 h = (cc, cc, cc, cc, cc)

markers_of :
    (b7 b9 b11 b13 : ℕ)
    → (mask_c0 b7 ≡ 0x80) ⊎ (mask_c0 b7 ≡ 0xC0)
    → has_bad_marker (mask_c0 b7) b9 b11 b13 ≡ false
    → ((b7 / 64 ≡ 2) ⊎ (b7 / 64 ≡ 3))
      × (b9 / 16 ≡ b7 / 64)
      × (b9 % 2 ≡ 1)
      × (b11 % 2 ≡ 1)
      × (b13 % 2 ≡ 1)
unfolding has_bad_marker
markers_of b7 b9 b11 b13 f h = (
  ground (arith, f),
  ground (arith, f, h),
  ground (arith, f, h),
  ground (arith, f, h),
  ground (arith, f, h),
)

unmarked :
    (b7 b9 b11 b13 v : ℕ)
    → (b7 / 64 ≡ 2) ⊎ (b7 / 64 ≡ 3)
    → v < 2 ^ 33
    → b9 ≡ b7 / 64 * 16 + v / 2 ^ 30 * 2 + 1
    → b11 ≡ v / 2 ^ 15 % 128 * 2 + 1
    → b13 ≡ v % 128 * 2 + 1
    → has_bad_marker (mask_c0 b7) b9 b11 b13 ≡ false
unfolding has_bad_marker
unmarked b7 b9 b11 b13 v f small e0 e2 e4 = ground (arith, f, small, e0, e2, e4)

value_of_field :
    (b0 b1 b2 b3 b4 f v : ℕ)
    → v < 2 ^ 33
    → b0 ≡ f * 16 + v / 2 ^ 30 * 2 + 1
    → b1 ≡ v / 2 ^ 22 % 256
    → b2 ≡ v / 2 ^ 15 % 128 * 2 + 1
    → b3 ≡ v / 2 ^ 7 % 256
    → b4 ≡ v % 128 * 2 + 1
    → (b0 % 16 / 2 * 2 * 2 ^ 29 + (b1 * 256 + b2) / 2 * 2 * 2 ^ 14 + (b3 * 256 + b4) / 2) % 2 ^ 33
      ≡ v
value_of_field b0 b1 b2 b3 b4 f v small e0 e1 e2 e3 e4 = omega (arith, small, e0, e1, e2, e3, e4)

module _ (reader : PtsReader) where
  read_pts_field_eq :
      (b0 b1 b2 b3 b4 : ℕ)
      → read_pts_field reader b0 b1 b2 b3 b4
        ≡ (b0 % 16 / 2 * 2 * 2 ^ 29 + (b1 * 256 + b2) / 2 * 2 * 2 ^ 14 + (b3 * 256 + b4) / 2)
          % 2 ^ 33
  read_pts_field_eq b0 b1 b2 b3 b4 =
      reader.pts_dts_mask_eq _
      ∙ ap₂ (λ a b. (mask_0e b0 * 2 ^ 29 + mask_fffe a * 2 ^ 14 + b / 2) % 2 ^ 33)
          (reader.get_uint16_eq _ _) (reader.get_uint16_eq _ _)

  parse_long :
      (packet : PesPacket) {pts : ℕ}
      → parse_pes_pts reader packet ≡ some pts
      → (packet.has_long_header ≡ true) × (14 ≤ length packet.header)
  unfolding parse_pes_pts
  parse_long packet h = (ground (arith, h), ground (arith, h))

  parse_flags :
      (packet : PesPacket) {pts : ℕ}
      → parse_pes_pts reader packet ≡ some pts
      → (mask_c0 (header_byte packet 7) ≡ 0x80) ⊎ (mask_c0 (header_byte packet 7) ≡ 0xC0)
  unfolding parse_pes_pts
  parse_flags packet h = ground (arith, h)

  parse_markers :
      (packet : PesPacket) {pts : ℕ}
      → parse_pes_pts reader packet ≡ some pts
      → has_bad_marker
          (mask_c0 (header_byte packet 7))
          (header_byte packet 9)
          (header_byte packet 11)
          (header_byte packet 13)
        ≡ false
  unfolding parse_pes_pts
  parse_markers packet h = ground (arith, h)

  parse_value :
      (packet : PesPacket) {pts : ℕ}
      → parse_pes_pts reader packet ≡ some pts
      → read_pts_field reader
          (header_byte packet 9)
          (header_byte packet 10)
          (header_byte packet 11)
          (header_byte packet 12)
          (header_byte packet 13)
        ≡ pts
  unfolding parse_pes_pts
  parse_value packet h = ground (arith, h)

  parse_accepts :
      (packet : PesPacket) {pts : ℕ}
      → packet.has_long_header ≡ true
      → 14 ≤ length packet.header
      → (mask_c0 (header_byte packet 7) ≡ 0x80) ⊎ (mask_c0 (header_byte packet 7) ≡ 0xC0)
      → has_bad_marker
          (mask_c0 (header_byte packet 7))
          (header_byte packet 9)
          (header_byte packet 11)
          (header_byte packet 13)
        ≡ false
      → read_pts_field reader
          (header_byte packet 9)
          (header_byte packet 10)
          (header_byte packet 11)
          (header_byte packet 12)
          (header_byte packet 13)
        ≡ pts
      → parse_pes_pts reader packet ≡ some pts
  unfolding parse_pes_pts
  parse_accepts packet l s f m v = ground (arith, l, s, f, m, v)

  -- For a header of bytes: a PTS is read exactly if the packet carries it.
  pub parse_pes_pts_iff :
      (packet : PesPacket) (pts : ℕ)
      → ((i : ℕ) → header_byte packet i < 256)
      → (parse_pes_pts reader packet ≡ some pts) ↔ CarriesPts packet pts
  parse_pes_pts_iff packet pts bytes = (forward, backward)
    where
      forward : parse_pes_pts reader packet ≡ some pts → CarriesPts packet pts
      forward h =
          let l = parse_long packet h in
          let m =
            markers_of (header_byte packet 7) (header_byte packet 9) (header_byte packet 11)
              (header_byte packet 13) (parse_flags packet h) (parse_markers packet h) in
          let v =
            sym (
              read_pts_field_eq (header_byte packet 9) (header_byte packet 10)
                (header_byte packet 11) (header_byte packet 12) (header_byte packet 13))
            ∙ parse_value packet h in
          record {
            long = l.0;
            size = l.1;
            flags = m.0;
            small = omega (arith, v);
            field =
                encode_pts-value (header_byte packet 7 / 64) (header_byte packet 9)
                  (header_byte packet 10) (header_byte packet 11) (header_byte packet 12)
                  (header_byte packet 13) m.1 (bytes 10) (bytes 11) (bytes 12) (bytes 13) m.2 m.3
                  m.4
                ∙ ap (encode_pts (header_byte packet 7 / 64)) v;
          }

      backward : CarriesPts packet pts → parse_pes_pts reader packet ≡ some pts
      backward c =
          let f = header_byte packet 7 / 64 in
          let (e0, e1, e2, e3, e4) = bytes_of _ _ _ _ _ _ _ _ _ _ c.field in
          parse_accepts packet c.long c.size (ground (arith, c.flags))
            (unmarked (header_byte packet 7) (header_byte packet 9) (header_byte packet 11)
              (header_byte packet 13) pts c.flags c.small e0 e2 e4)
            (read_pts_field_eq (header_byte packet 9) (header_byte packet 10)
                (header_byte packet 11) (header_byte packet 12) (header_byte packet 13)
              ∙ value_of_field _ _ _ _ _ (header_byte packet 7 / 64) pts c.small e0 e1 e2 e3 e4)
