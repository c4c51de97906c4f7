-- ===== src/Classifier/Rules.antt =====
-- The ARIB pairing rules that the classifier implements.
use aribcap_dump.Classifier.{profile_c, profile_a, Stream, classify_caption_stream}
use aribcap_dump.Prelude.{arith, ◌↔◌, ◌⊎◌, ◌≤◌, ◌<◌, some, ◌≡◌, ℕ}

-- A full-segment caption: not on a one-seg PMT PID, and with no data component identifier or that of
-- profile A.
abbrev pub IsFullSeg : ℕ → Stream → Type 0
IsFullSeg pmt_pid s =
    (s.component_tag ≡ some 0x30)
    × ((pmt_pid < 0x1FC8) ⊎ (0x1FCF < pmt_pid))
    × ((s.descriptor_count ≤ s.data_component_index) ⊎ (s.data_component_id ≡ 0x0008))

-- A one-seg caption: on a one-seg PMT PID, and with the data component identifier of profile C.
abbrev pub IsOneSeg : ℕ → Stream → Type 0
IsOneSeg pmt_pid s =
    (s.component_tag ≡ some 0x87)
    × (0x1FC8 ≤ pmt_pid)
    × (pmt_pid ≤ 0x1FCF)
    × (s.data_component_index < s.descriptor_count)
    × (s.data_component_id ≡ 0x0012)

-- A stream is decoded with profile A exactly if it is a private PES stream and a full-segment
-- caption: its tag is 0x30, the PMT's PID is no one-seg PID, and its data component identifier is
-- absent or that of profile A.
pub classify_caption_stream_a :
    (st_pes_priv pmt_pid : ℕ) (s : Stream)
    → (classify_caption_stream st_pes_priv pmt_pid s ≡ some profile_a)
      ↔ ((s.stream_type ≡ st_pes_priv) × IsFullSeg pmt_pid s)
unfolding classify_caption_stream
classify_caption_stream_a st_pes_priv pmt_pid s = (λ h. ground arith, λ h. ground arith)

-- A stream is decoded with profile C exactly if it is a private PES stream and a one-seg caption:
-- its tag is 0x87, the PMT's PID is a one-seg PID, and its data component identifier is that of
-- profile C.
pub classify_caption_stream_c :
    (st_pes_priv pmt_pid : ℕ) (s : Stream)
    → (classify_caption_stream st_pes_priv pmt_pid s ≡ some profile_c)
      ↔ ((s.stream_type ≡ st_pes_priv) × IsOneSeg pmt_pid s)
unfolding classify_caption_stream
classify_caption_stream_c st_pes_priv pmt_pid s = (λ h. ground arith, λ h. ground arith)
