-- ===== src/Classifier/Tests.antt =====
-- The classifier's theorems at a full-segment and at a one-seg stream.
use aribcap_dump.Classifier.Rules.{
  classify_caption_stream_c, classify_caption_stream_a, IsOneSeg, IsFullSeg,
}
use aribcap_dump.Classifier.{profile_c, profile_a, classify_caption_stream, Stream}
use aribcap_dump.Prelude.{◌↔◌, ◌≡◌, some, refl}

abbrev full_seg : Stream
full_seg = record {
  stream_type = 6;
  component_tag = some 0x30;
  data_component_index = 2;
  descriptor_count = 2;
  data_component_id = 0;
}

abbrev one_seg : Stream
one_seg = record {
  stream_type = 6;
  component_tag = some 0x87;
  data_component_index = 1;
  descriptor_count = 2;
  data_component_id = 0x12;
}

full_seg_classified : classify_caption_stream 6 0x100 full_seg ≡ some profile_a
unfolding classify_caption_stream
full_seg_classified = refl

classify_caption_stream_a_example :
    (classify_caption_stream 6 0x100 full_seg ≡ some profile_a)
    ↔ ((full_seg.stream_type ≡ 6) × IsFullSeg 0x100 full_seg)
classify_caption_stream_a_example = classify_caption_stream_a 6 0x100 full_seg

classify_caption_stream_c_example :
    (classify_caption_stream 6 0x1FC8 one_seg ≡ some profile_c)
    ↔ ((one_seg.stream_type ≡ 6) × IsOneSeg 0x1FC8 one_seg)
classify_caption_stream_c_example = classify_caption_stream_c 6 0x1FC8 one_seg
