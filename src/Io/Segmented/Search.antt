-- ===== src/Io/Segmented/Search.antt =====
-- src/io/segmented_input_stream.cpp, lines 85-161: searchBytes. The nodes are searched whole, whatever m_offset, and
-- a node that is given up leaves m_size as it was.
use commutil.Common.{
  ℕ, zero, suc, ◌+◌, ◌-◌, ◌&&◌, Option, none, some, List, [], ◌∷◌, ltb, ◌==◌, if◌then◌else◌, length,
  drop,
}
use commutil.Err.{e_end_of_stream, e_internal_error, Out, ok, err, fault}
use commutil.Io.Search.{strnstr, strncmp_equal}
use commutil.Io.Segmented.{SegmentedInputStream, skip_bytes, remove_head}

-- `skipBytes(n)`, and then E_OK or E_END_OF_STREAM.
unfoldable pub skip_found : ℕ → SegmentedInputStream → Out SegmentedInputStream (Unit {0})
skip_found n s = elim (skip_bytes n s) [
  | ok k t ↦ ok tt t
  | err e t ↦ err e_internal_error t
  | fault ↦ fault
]

unfoldable pub skip_missed : ℕ → SegmentedInputStream → Out SegmentedInputStream (Unit {0})
skip_missed n s = elim (skip_bytes n s) [
  | ok k t ↦ err e_end_of_stream t
  | err e t ↦ err e_internal_error t
  | fault ↦ fault
]

-- The loop for the suffix of the last node, for the rounds left, with i and the offset.
unfoldable pub suffix_offset : ℕ → List ℕ → List ℕ → ℕ → ℕ → ℕ
unfolding strncmp_equal
suffix_offset zero node pattern i offset = offset
suffix_offset (suc rounds) node pattern i offset =
    let rest = suffix_offset rounds node pattern (i + 1) (offset + 1) in
    if strncmp_equal (drop offset node) pattern (length pattern - i) then offset else rest

-- The loop over the border of two nodes: `none` where it ends without a match.
unfoldable pub search_border :
    ℕ
    → List ℕ
    → List ℕ
    → List ℕ
    → ℕ
    → ℕ
    → SegmentedInputStream
    → Option (Out SegmentedInputStream (Unit {0}))
unfolding strncmp_equal skip_found skip_missed
search_border zero node next pattern i offset s = none
search_border (suc rounds) node next pattern i offset s =
    let rest = search_border rounds node next pattern (i + 1) (offset + 1) s in
    if ltb (length next) i
    then some (skip_missed offset s)
    else if strncmp_equal (drop offset node) pattern (length pattern - i)
        && strncmp_equal next (drop (length pattern - i) pattern) i
    then some (skip_found offset s)
    else rest

-- The search of one node; `missed` is what follows where the pattern is not in it.
unfoldable pub search_node :
    List ℕ
    → List ℕ
    → SegmentedInputStream
    → Out SegmentedInputStream (Unit {0})
    → Out SegmentedInputStream (Unit {0})
unfolding skip_found
search_node node pattern s missed =
    if ltb (length node) (length pattern)
    then err e_end_of_stream s
    else elim (strnstr node pattern) [
      | ok (some res) _ ↦ if res == 0 then ok tt s else skip_found res s
      | ok none _ ↦ missed
      | err e _ ↦ err e s
      | fault ↦ fault
    ]

-- The loop of `searchBytes`, over the nodes.
unfoldable pub search_segments :
    List (List ℕ) → List ℕ → SegmentedInputStream → Out SegmentedInputStream (Unit {0})
unfolding suffix_offset search_border search_node
search_segments [] pattern s = err e_end_of_stream s
search_segments (node ∷ []) pattern s =
    search_node node pattern s
      (skip_missed (suffix_offset (length pattern) node pattern 0 (length node - length pattern)) s)
search_segments (node ∷ next ∷ more) pattern s =
    search_node node pattern s
      (elim (search_border (length pattern) node next pattern 0 (length node - length pattern) s) [
        | some out ↦ out
        | none ↦ search_segments (next ∷ more) pattern (remove_head s)
      ])

unfoldable pub search_bytes : List ℕ → SegmentedInputStream → Out SegmentedInputStream (Unit {0})
unfolding search_segments
search_bytes pattern s = search_segments s.segments pattern s
