-- ===== src/Classifier.antt =====
-- core/caption_classifier.hpp and core/caption_classifier.cc: which elementary streams of a PMT are
-- ARIB captions, and with which profile they are decoded.
pub mod Rules
mod Tests
use aribcap_dump.Prelude.{
  none, not, ltb, ◌||◌, ◌&&◌, some, if◌then◌else◌, ◌==◌, false, true, leb, Bool, Option, ℕ,
}

pub data Profile : Type 0 where
  profile_a profile_c : Profile

-- What TSDuck tells of a `ts::PMT::Stream`: `getComponentTag`, and where its descriptor list finds
-- the first data component descriptor (the list's length, where it finds none), with that
-- descriptor's identifier.
pub record Stream : Type 0 where
  pub stream_type : ℕ
  pub component_tag : Option ℕ
  pub data_component_index : ℕ
  pub descriptor_count : ℕ
  pub data_component_id : ℕ

abbrev pub component_tag_default_caption : ℕ
component_tag_default_caption = 0x30

abbrev pub component_tag_one_seg_caption : ℕ
component_tag_one_seg_caption = 0x87

abbrev pub data_component_profile_a : ℕ
data_component_profile_a = 0x0008

abbrev pub data_component_profile_c : ℕ
data_component_profile_c = 0x0012

abbrev pub one_seg_pmt_pid_min : ℕ
one_seg_pmt_pid_min = 0x1FC8

abbrev pub one_seg_pmt_pid_max : ℕ
one_seg_pmt_pid_max = 0x1FCF

pub is_one_seg_pmt_pid : ℕ → Bool
is_one_seg_pmt_pid pid = leb one_seg_pmt_pid_min pid && leb pid one_seg_pmt_pid_max

pub is_supported_profile_a_id : Option ℕ → Bool
is_supported_profile_a_id none = true
is_supported_profile_a_id (some data_component_id) = data_component_id == data_component_profile_a

abbrev is_profile_c_id : Option ℕ → Bool
is_profile_c_id none = false
is_profile_c_id (some data_component_id) = data_component_id == data_component_profile_c

pub is_default_caption_component_tag : ℕ → Bool
is_default_caption_component_tag component_tag = component_tag == component_tag_default_caption

pub classify_caption_component : ℕ → Option ℕ → Bool → Option Profile
unfolding is_default_caption_component_tag is_supported_profile_a_id
classify_caption_component component_tag data_component_id one_seg_pmt_pid =
    if is_default_caption_component_tag component_tag
    then (if one_seg_pmt_pid || not (is_supported_profile_a_id data_component_id)
        then none
        else some profile_a)
    else if component_tag == component_tag_one_seg_caption
    then (if not one_seg_pmt_pid || not (is_profile_c_id data_component_id)
        then none
        else some profile_c)
    else none

pub find_data_component_id : Stream → Option ℕ
find_data_component_id stream =
    if ltb stream.data_component_index stream.descriptor_count
    then some stream.data_component_id
    else none

-- `st_pes_priv` is `ts::ST_PES_PRIV`.
module _ (st_pes_priv : ℕ) where
  abbrev classify_tag : ℕ → Stream → Option ℕ → Option Profile
  classify_tag pmt_pid stream none = none
  classify_tag pmt_pid stream (some component_tag) =
      classify_caption_component component_tag (find_data_component_id stream)
        (is_one_seg_pmt_pid pmt_pid)

  unfoldable pub classify_caption_stream : ℕ → Stream → Option Profile
  unfolding classify_caption_component find_data_component_id is_one_seg_pmt_pid
  classify_caption_stream pmt_pid stream =
      if not (stream.stream_type == st_pes_priv)
      then none
      else classify_tag pmt_pid stream stream.component_tag
