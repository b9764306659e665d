-- ===== src/Msg/Assembler/Wire.antt =====
-- Messages as they arrive on a connection: a header with the magic word and the message's length, then the payload.
use commutil.Common.{
  ℕ, ◌+◌, ◌<◌, ◌≡◌, refl, ap, ◌∙◌, List, ◌++◌, append_assoc, arith, length, take, drop, sub32,
  length-append, take_prefix, drop_all, drop_prefix, le→ltb, true, some, length-drop, add32,
  append-nil,
}
use commutil.Err.{ok, ◌>>=◌}
use commutil.Io.Bytes.{ByteOrder}
use commutil.Io.Stream.{Leaves}
use commutil.Io.Segmented.{SegmentedInputStream, read_bytes}
use commutil.Io.Segmented.Copy.{contents, IsValid}
use commutil.Io.Segmented.Read.{segmented_input, granted, read_bytes_lem, nonempty}
use commutil.Msg.Header
use commutil.Msg.Header.{MsgHeader, header_size, msg_magic, is_valid, same_bytes}
use commutil.Msg.Header.Codec.{HasWidths, header_bytes, length-header_bytes, deserialize-Reads}
use commutil.Msg.Message.{Msg, Allocate, alloc_msg, alloc_msg_like, deserialize}
use commutil.Msg.Frame.Single.{Gives}

-- A message that the assembler recognizes.
pub record IsFrame (m : Msg) : Type 0 where
  pub widths : HasWidths m.header
  pub magic : m.header.magic ≡ msg_magic
  pub sized : m.header.length ≡ header_size + length m.payload

abbrev pub frame_bytes : ByteOrder → Msg → List ℕ
frame_bytes o m = header_bytes o m.header ++ m.payload

pub length-frame_bytes :
    (o : ByteOrder) (m : Msg) → IsFrame m → length (frame_bytes o m) ≡ m.header.length
length-frame_bytes o m f = omega (
  arith,
  length-append (header_bytes o m.header) m.payload,
  length-header_bytes o m.header f.widths,
  f.sized,
)

pub IsFrame-is_valid : (m : Msg) → IsFrame m → is_valid m.header ≡ true
unfolding is_valid same_bytes
IsFrame-is_valid m f = rw (f.magic)

-- Memory for the message gives a frame of the right size for its header.
pub allocated_frame :
    (new : Allocate) (m : Msg)
    → IsFrame m
    → Gives new m.header.length
    → (fresh : Msg) × (length fresh.payload ≡ length m.payload)
      × (alloc_msg_like new m.header ≡ ok (some fresh) tt)
unfolding alloc_msg_like alloc_msg
allocated_frame new m f (memory, got, size) = (
  record {
    header =
        Header.make m.header.length m.header.msg_id m.header.flags m.header.request_id
          m.header.request_index;
    payload = drop header_size memory;
  },
  omega (arith, length-drop header_size memory, f.sized),
  rw (
    ap new whole ∙ got,
    alloc_msg,
    whole,
    le→ltb m.header.length header_size (omega (arith, f.sized)),
  ),
)
  where
    whole : add32 header_size (sub32 m.header.length header_size) ≡ m.header.length
    whole = omega (arith, f.sized, f.widths.length_32)

-- What a read of the payload takes, where there is a byte in it or behind it.
payload_read :
    (m : Msg) (rest : List ℕ) (s : SegmentedInputStream)
    → IsValid s
    → contents s ≡ m.payload ++ rest
    → 0 < length m.payload + length rest
    → (t : SegmentedInputStream) × (read_bytes (length m.payload) s ≡ ok m.payload t)
      × Leaves s rest t
payload_read m rest s v c some_byte =
    let (t, run, adv) =
      read_bytes_lem (length m.payload) s v
        (nonempty s (omega (arith, ap length c, length-append m.payload rest))) in
    (
      t,
      run
          ∙ ap (λ bs. ok bs t)
              (ap (λ n. take n (contents s)) all
                ∙ ap (take (length m.payload)) c
                ∙ take_prefix (length m.payload) m.payload rest refl),
      (
        adv.valid,
        adv.rest
            ∙ ap (λ n. drop n (contents s)) all
            ∙ ap (drop (length m.payload)) c
            ∙ drop_prefix (length m.payload) m.payload rest refl,
        adv.same_order,
      ),
    )
  where
    all : granted (length m.payload) s ≡ length m.payload
    all = omega (arith, ap length c, length-append m.payload rest)

-- A message is deserialized over a frame of its size as it was sent, and what follows it is left.
pub deserialize_frame :
    (fresh m : Msg) (o : ByteOrder) (rest : List ℕ) (s : SegmentedInputStream)
    → IsFrame m
    → length fresh.payload ≡ length m.payload
    → IsValid s
    → s.byte_order ≡ o
    → contents s ≡ frame_bytes o m ++ rest
    → 0 < length m.payload + length rest
    → (t : SegmentedInputStream) × (deserialize fresh s ≡ ok m t) × Leaves s rest t
unfolding deserialize
deserialize_frame fresh m o rest s f fits v ord c some_byte =
    let (h, header, (valid, left, same)) =
      deserialize-Reads o m.header f.widths s (m.payload ++ rest) v ord
        (c ∙ append_assoc (header_bytes o m.header) m.payload rest) in
    let (t, body, (valid', left', same')) = payload_read m rest h valid left some_byte in
    (
      t,
      rw (
        header,
        ◌>>=◌,
        whole,
        body,
        le→ltb (length fresh.payload) (length m.payload) (omega arith),
        drop_all (length m.payload) fresh.payload (omega arith),
        append-nil,
      ),
      (valid', left', same' ∙ same),
    )
  where
    whole : sub32 m.header.length header_size ≡ length m.payload
    whole = omega (arith, f.sized, f.widths.length_32)
