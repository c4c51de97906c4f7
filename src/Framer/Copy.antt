-- ===== src/Framer/Copy.antt =====
-- The `memcpy` of `FeedSeekingSync` and of `FeedSynced`: bytes go from the input into `pending_`.
use aribcap_dump.Framer.Lists.{get_or-append_left, length_pos, drop-all}
use aribcap_dump.Framer.{sub_size, min_size}
use aribcap_dump.Prelude.{
  is_empty, append-nil, get_or, take-append-drop, sym, ap, ◌∙◌, append_assoc, length-drop,
  length-take, length-append, arith, [], ◌-◌, ◌+◌, ◌≤◌, false, ◌≡◌, drop, length, take, ◌^◌, ◌++◌,
  ◌<◌, List, ℕ,
}

-- How many bytes go into a buffer of `size` bytes, and what that leaves.
module _ (size : ℕ) (pending cursor : List ℕ) where
  abbrev pub copied : ℕ
  copied = min_size (sub_size size (length pending)) (length cursor)

  pub copied_bounds :
      size < 2 ^ 63
      → length pending < size
      → is_empty cursor ≡ false
      → (0 < copied)
        × (copied ≤ length cursor)
        × (length (pending ++ take copied cursor) ≡ length pending + copied)
        × (length pending + copied ≤ size)
        × (length (drop copied cursor) ≡ length cursor - copied)
        × (length pending + copied < size → drop copied cursor ≡ [])
  copied_bounds small room more =
      let pos : 0 < length cursor = length_pos cursor more in
      let c : (0 < copied)
          × (copied ≤ length cursor)
          × (length pending + copied ≤ size)
          × (length pending + copied < size → copied ≡ length cursor) =
        ground arith in
      (
        c.0,
        c.1,
        omega (arith, length-append pending (take copied cursor), length-take copied cursor),
        c.2,
        length-drop copied cursor,
        λ h. drop-all copied cursor (c.3 h),
      )

  pub copied_bytes :
      (rest : List ℕ)
      → (pending ++ take copied cursor) ++ (drop copied cursor ++ rest)
        ≡ pending ++ (cursor ++ rest)
  copied_bytes rest =
      append_assoc pending (take copied cursor) (drop copied cursor ++ rest)
      ∙ ap (◌++◌ pending) (
          sym (append_assoc (take copied cursor) (drop copied cursor) rest)
          ∙ ap (λ k. k ++ rest) (take-append-drop copied cursor))

  -- The first byte of the buffer was there before, or is the first one copied.
  pub copied_head :
      0 < length (pending ++ take copied cursor)
      → get_or (pending ++ take copied cursor) 0 0 ≡ get_or (pending ++ cursor) 0 0
  copied_head h =
      sym (get_or-append_left (pending ++ take copied cursor) (drop copied cursor ++ []) 0 0 h)
      ∙ ap (λ k. get_or k 0 0) (copied_bytes [] ∙ ap (◌++◌ pending) (append-nil cursor))
