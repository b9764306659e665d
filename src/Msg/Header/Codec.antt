-- ===== src/Msg/Header/Codec.antt =====
-- src/msg/msg_header.cpp, lines 39-63: the bytes of a header, written and read.
use commutil.Common.{
  ℕ, ◌^◌, ◌≤◌, ◌<◌, ◌≡◌, refl, ap, ◌∙◌, List, [], ◌++◌, arith, length, length-append, inl, inr, ltb,
  Bool-cases, ltb→lt, ltb→le,
}
use mathlib.Core.Path.{subst}
use commutil.Err.{ok}
use commutil.Io.Bytes.{ByteOrder, length-le_bytes}
use commutil.Io.Stream.{InputStream, Leaves}
use commutil.Io.FixedOutput.{FixedOutputStream, IsValid, room, Wrote, written}
use commutil.Io.Serializable.{serialize_data}
use commutil.Io.Serializable.Writer.{uint_bytes, Writes, Writes-bytes, Writes-uint, Writes-then}
use commutil.Io.Serializable.Reader.{Reads, Reads-data, Reads-uint, Reads-bind, Reads-last}
use commutil.Msg.Header.{MsgHeader, header_size, magic_size, serialize, deserialize}

-- Each field has the width of its type.
pub record HasWidths (h : MsgHeader) : Type 0 where
  pub magic : length h.magic ≡ magic_size
  pub length_32 : h.length < 256 ^ 4
  pub msg_id_16 : h.msg_id < 256 ^ 2
  pub flags_16 : h.flags < 256 ^ 2
  pub request_id_64 : h.request_id < 256 ^ 8
  pub request_index_32 : h.request_index < 256 ^ 4
  pub uncompressed_length_32 : h.uncompressed_length < 256 ^ 4
  pub batch_size_32 : h.batch_size < 256 ^ 4
  pub reserved_32 : h.reserved < 256 ^ 4

-- The header as it goes over the wire.
unfoldable pub header_bytes : ByteOrder → MsgHeader → List ℕ
header_bytes o h =
    h.magic
    ++ (uint_bytes o 4 h.length
        ++ (uint_bytes o 2 h.msg_id
            ++ (uint_bytes o 2 h.flags
                ++ (uint_bytes o 8 h.request_id
                    ++ (uint_bytes o 4 h.request_index
                        ++ (uint_bytes o 4 h.uncompressed_length
                            ++ (uint_bytes o 4 h.batch_size ++ uint_bytes o 4 h.reserved)))))))

pub length-header_bytes :
    (o : ByteOrder) (h : MsgHeader) → HasWidths h → length (header_bytes o h) ≡ header_size
unfolding header_bytes
length-header_bytes o h w = simp (length-append, length-le_bytes) (omega (arith, w.magic))

module _ (o : ByteOrder) (h : MsgHeader) (w : HasWidths h) where
  -- Serialization writes the 40 bytes of the header if they fit, and otherwise gives E_NOMEM.
  pub serialize-Writes : Writes o (header_bytes o h) (serialize h)
  unfolding serialize header_bytes serialize_data
  serialize-Writes = Writes-then o _ _ _ _ (Writes-bytes o h.magic) (
      Writes-then o _ _ _ _ (Writes-uint o 4 h.length) (
        Writes-then o _ _ _ _ (Writes-uint o 2 h.msg_id) (
          Writes-then o _ _ _ _ (Writes-uint o 2 h.flags) (
            Writes-then o _ _ _ _ (Writes-uint o 8 h.request_id) (
              Writes-then o _ _ _ _ (Writes-uint o 4 h.request_index) (
                Writes-then o _ _ _ _ (Writes-uint o 4 h.uncompressed_length) (
                  Writes-then o _ _ _ _ (Writes-uint o 4 h.batch_size)
                    (Writes-uint o 4 h.reserved))))))))

  -- Deserialization reads them back, whatever follows.
  pub deserialize-Reads :
      {S : Type 0} ⦃is : InputStream S⦄ → Reads {S = S} o (header_bytes o h) h deserialize
  unfolding deserialize header_bytes
  deserialize-Reads =
      Reads-bind o _ _ _ _ _ _ (Reads-data o magic_size h.magic w.magic (omega arith)) (
        Reads-bind o _ _ _ _ _ _ (Reads-uint o 4 h.length (omega arith) w.length_32) (
          Reads-bind o _ _ _ _ _ _ (Reads-uint o 2 h.msg_id (omega arith) w.msg_id_16) (
            Reads-bind o _ _ _ _ _ _ (Reads-uint o 2 h.flags (omega arith) w.flags_16) (
              Reads-bind o _ _ _ _ _ _ (Reads-uint o 8 h.request_id (omega arith) w.request_id_64) (
                Reads-bind o _ _ _ _ _ _
                  (Reads-uint o 4 h.request_index (omega arith) w.request_index_32)
                  (Reads-bind o _ _ _ _ _ _
                    (Reads-uint o 4 h.uncompressed_length (omega arith) w.uncompressed_length_32)
                    (Reads-bind o _ _ _ _ _ _
                      (Reads-uint o 4 h.batch_size (omega arith) w.batch_size_32)
                      (Reads-last o _ _ _ _ _
                        (Reads-uint o 4 h.reserved (omega arith) w.reserved_32) refl))))))))

-- Serialization succeeds exactly if the header fits; then its 40 bytes are appended.
pub serialize_lem :
    (h : MsgHeader) (os os' : FixedOutputStream)
    → HasWidths h
    → IsValid os
    → serialize h os ≡ ok tt os'
    → (header_size ≤ room os) × Wrote os (header_bytes os.byte_order h) os'
serialize_lem h os os' w v run = elim (Bool-cases (ltb (room os) header_size)) [
  | inl short ↦
      let (t, no_room) = writes.full os v refl (omega (arith, ltb→lt _ _ short, size)) in
      absurd (cc (no_room, run))
  | inr long ↦
      let (t, done, wrote) = writes.fits os v refl (omega (arith, ltb→le _ _ long, size)) in
      (ltb→le _ _ long, subst (Wrote os (header_bytes os.byte_order h)) (same done) wrote)
]
  where
    writes : Writes os.byte_order (header_bytes os.byte_order h) (serialize h)
    writes = serialize-Writes os.byte_order h w

    size : length (header_bytes os.byte_order h) ≡ header_size
    size = length-header_bytes os.byte_order h w

    same : {t : FixedOutputStream} → serialize h os ≡ ok tt t → t ≡ os'
    same done = cc

-- A header that was serialized into a fresh buffer is read back by deserialization as the same
-- header, from a stream of the same byte order that starts with the bytes written; what follows
-- them is left in the stream.
pub deserialize-serialize :
    {S : Type 0} ⦃is : InputStream S⦄ (h : MsgHeader) (os os' : FixedOutputStream) (s : S)
    (rest : List ℕ)
    → HasWidths h
    → IsValid os
    → written os ≡ []
    → serialize h os ≡ ok tt os'
    → is.IsValid s
    → is.byte_order s ≡ os.byte_order
    → is.contents s ≡ written os' ++ rest
    → (t : S) × (deserialize s ≡ ok h t) × Leaves s rest t
deserialize-serialize h os os' s rest w v fresh run valid same sent =
    deserialize-Reads os.byte_order h w s rest valid same (
      sent
      ∙ ap (λ bs. bs ++ rest)
          (wrote.bytes_added ∙ ap (λ bs. bs ++ header_bytes os.byte_order h) fresh))
  where
    wrote : Wrote os (header_bytes os.byte_order h) os'
    wrote = (serialize_lem h os os' w v run).1
