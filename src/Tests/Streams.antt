-- ===== src/Tests/Streams.antt =====
-- Streams of a few bytes, for inc/io and src/io.
use commutil.Common.{
  ℕ, suc, min, ◌+◌, ◌<◌, ◌≡◌, ◌≢◌, ◌↔◌, refl, List, [], ◌∷◌, ◌++◌, arith, length, take, flatten,
  u32_mod,
}
use commutil.Err.{ok, err, fault, e_end_of_stream, e_nomem}
use commutil.Io.Bytes.{
  host_order, network_order, hton, hton-hton, le_bytes, le_value, le_value-le_bytes,
}
use commutil.Io.FixedOutput
use commutil.Io.FixedOutput.{
  FixedOutputStream, write_bytes, Wrote, write_bytes-Wrote, write_bytes_full,
}
use commutil.Io.FixedInput
use commutil.Io.FixedInput.{FixedInputStream, skip_bytes, after, skip_bytes_lem, at_end_of_stream}
use commutil.Io.Segmented
use commutil.Io.Segmented.{SegmentedInputStream, reset, append_buffer}
use commutil.Io.Segmented.Copy.{contents, owned, IsValid, Copies, copy_bytes_lem}
use commutil.Io.Segmented.Read.{granted, peek_bytes_lem, copy_fault, append_buffer_lem, reset_lem}

hton-hton_example : hton 4 (hton 4 0x01020304) ≡ 0x01020304
hton-hton_example = hton-hton 4 0x01020304 (omega arith)

le_value-le_bytes_example : le_value (le_bytes 4 0x01020304) ≡ 0x01020304
le_value-le_bytes_example = le_value-le_bytes 4 0x01020304 (omega arith)

abbrev out5 : FixedOutputStream
out5 = record {
  buffer = 1 ∷ 2 ∷ 0 ∷ 0 ∷ 0 ∷ [];
  buffer_size = 5;
  offset = 2;
  byte_order = host_order;
}

out5-IsValid : FixedOutput.IsValid out5
out5-IsValid = record { whole = refl; within = omega arith; small = omega arith }

write_bytes-Wrote_example :
    (t : FixedOutputStream) × (write_bytes (3 ∷ 4 ∷ []) out5 ≡ ok tt t) × Wrote out5 (3 ∷ 4 ∷ []) t
write_bytes-Wrote_example = write_bytes-Wrote (3 ∷ 4 ∷ []) out5 out5-IsValid (omega arith)

write_bytes_full_example : write_bytes (3 ∷ 4 ∷ 5 ∷ 6 ∷ []) out5 ≡ err e_nomem out5
write_bytes_full_example = write_bytes_full (3 ∷ 4 ∷ 5 ∷ 6 ∷ []) out5 out5-IsValid (omega arith)

abbrev in3 : FixedInputStream
in3 = record { buffer = 7 ∷ 8 ∷ 9 ∷ []; size = 3; offset = 1; byte_order = network_order }

in3-IsValid : FixedInput.IsValid in3
in3-IsValid = record { whole = refl; within = omega arith; small = omega arith }

some_in3 : 0 < length (FixedInput.contents in3)
unfolding FixedInput.contents
some_in3 = omega arith

read_bytes_lem_example :
    FixedInput.read_bytes 5 in3
    ≡ ok
        (take (min 5 (length (FixedInput.contents in3))) (FixedInput.contents in3))
        (after (min 5 (length (FixedInput.contents in3))) in3)
read_bytes_lem_example = FixedInput.read_bytes_lem 5 in3 in3-IsValid some_in3

abbrev in_end : FixedInputStream
in_end = record { buffer = 7 ∷ []; size = 1; offset = 1; byte_order = network_order }

in_end-contents : FixedInput.contents in_end ≡ []
unfolding FixedInput.contents
in_end-contents = refl

at_end_of_stream_example :
    (FixedInput.read_bytes 0 in_end ≡ err e_end_of_stream in_end)
    × (FixedInput.peek_bytes 0 in_end ≡ err e_end_of_stream in_end)
    × (FixedInput.skip_bytes 0 in_end ≡ err e_end_of_stream in_end)
at_end_of_stream_example =
    at_end_of_stream 0 in_end (record { whole = refl; within = omega arith; small = omega arith })
      in_end-contents

-- Two segments, with the first byte consumed.
abbrev two : SegmentedInputStream
two = record {
  segments = (1 ∷ 2 ∷ []) ∷ (3 ∷ 4 ∷ 5 ∷ []) ∷ [];
  offset = 1;
  size = 4;
  freed = [];
  byte_order = host_order;
}

two-IsValid : IsValid two
unfolding flatten
two-IsValid = record { within = omega arith; counted = refl; small = omega arith }

two-nonempty : two.segments ≢ []
two-nonempty e = cc

two-has3 : 3 < suc (length (contents two))
unfolding flatten
two-has3 = omega arith

copy_bytes_lem_example : Copies 3 two
copy_bytes_lem_example = copy_bytes_lem 3 two two-IsValid two-nonempty (omega (arith, two-has3))

peek_bytes_lem_example :
    (Segmented.peek_bytes 9 two ≡ ok (take (granted 9 two) (contents two)) two)
    × ((t : SegmentedInputStream) × (Segmented.read_bytes 9 two
          ≡ ok (take (granted 9 two) (contents two)) t))
peek_bytes_lem_example = peek_bytes_lem 9 two two-IsValid two-nonempty

abbrev drained : SegmentedInputStream
drained = record {
  segments = [];
  offset = 0;
  size = 0;
  freed = (1 ∷ []) ∷ [];
  byte_order = host_order;
}

drained-IsValid : IsValid drained
unfolding flatten
drained-IsValid = record { within = refl; counted = refl; small = omega arith }

copy_fault_example :
    ((Segmented.read_bytes 0 drained ≡ fault) ↔ (drained.segments ≡ []))
    × ((Segmented.skip_bytes 0 drained ≡ fault) ↔ (drained.segments ≡ []))
    × ((Segmented.peek_bytes 0 drained ≡ fault) ↔ (drained.segments ≡ []))
copy_fault_example = copy_fault 0 drained drained-IsValid

abbrev more : List ℕ
more = 6 ∷ 7 ∷ []

append_fits : length (flatten two.segments) + length more < u32_mod
unfolding flatten
append_fits = omega arith

append_buffer_lem_example :
    IsValid (append_buffer more two)
    × (contents (append_buffer more two) ≡ contents two ++ more)
    × (owned (append_buffer more two) ≡ owned two ++ more ∷ [])
append_buffer_lem_example = append_buffer_lem more two two-IsValid append_fits

reset_lem_example :
    (contents (reset two) ≡ [])
    × ((reset two).freed ≡ owned two)
    × (IsValid (reset two) ↔ (two.offset ≡ 0))
reset_lem_example = reset_lem two two-IsValid
