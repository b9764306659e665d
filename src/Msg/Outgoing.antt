-- ===== src/Msg/Outgoing.antt =====
-- src/msg/msg_client.cpp, lines 103-123, and src/msg/msg_server.cpp, lines 228-240: a message is serialized into a
-- buffer of the transport's allocator, which goes over to the transport with the flags below.
use commutil.Common.{
  ℕ, ◌+◌, ◌≤◌, ◌≡◌, ◌⊎◌, inl, inr, refl, ap, ◌∙◌, sym, Bool, none, some, List, ◌∷◌, ◌++◌, arith,
  length, take, replicate, length-replicate, length-append, take_all, suc, Bool-cases,
}
use commutil.Err.{e_nomem, Out, ok, err, fault}
use commutil.Io.Bytes.{ByteOrder}
use commutil.Io.FixedOutput.{FixedOutputStream, make_over, IsValid, written, length-written}
use commutil.Io.Serializable.Writer.{Writes, Writes-bytes, Writes-then}
use commutil.Msg.Header.{header_size}
use commutil.Msg.Header.Codec.{HasWidths, header_bytes, length-header_bytes, serialize-Writes}
use commutil.Msg.Message.{Msg, serialize, payload_size_bytes}
use commutil.Transport.Memory.{
  request_buffer, Memory, allocate, free, replace, allocate-full, allocate-room, replace-head,
}

-- COMMUTIL_MSG_WRITE_BY_REF | COMMUTIL_MSG_WRITE_DISPOSE_BUFFER
abbrev pub write_flags : ℕ
write_flags = 3

-- The buffer's address, and the bytes there up to the stream's length. A new buffer is given with zeros.
unfoldable pub serialize_msg : (ℕ → Bool) → ByteOrder → Msg → Memory → Out Memory (ℕ × List ℕ)
serialize_msg room o m memory =
    let size = m.header.length in
    let (buffer, after) = allocate room (request_buffer (replicate size 0)) memory in
    elim buffer [
      | none ↦ err e_nomem after
      | some address ↦ elim (serialize m (make_over (replicate size 0) size o)) [
        | ok _ os ↦
            ok (address, take os.offset os.buffer)
              (record after { live = replace address (request_buffer os.buffer) after.live })
        | err e os ↦ elim (free address after) [ ok _ left ↦ err e left | _ ↦ fault ]
        | fault ↦ fault
      ]
    ]

-- A message whose length counts its header and its payload.
pub record IsWhole (m : Msg) : Type 0 where
  pub widths : HasWidths m.header
  pub counted : m.header.length ≡ header_size + length m.payload

-- The message as it goes over the wire.
abbrev pub msg_bytes : ByteOrder → Msg → List ℕ
msg_bytes o m = header_bytes o m.header ++ m.payload

pub length-msg_bytes :
    (o : ByteOrder) (m : Msg) → IsWhole m → length (msg_bytes o m) ≡ m.header.length
length-msg_bytes o m w = omega (
  arith,
  length-append (header_bytes o m.header) m.payload,
  length-header_bytes o m.header w.widths,
  w.counted,
)

abbrev pub with_buffer : List ℕ → Memory → Memory
with_buffer bytes m = record { next = suc m.next; live = (m.next, request_buffer bytes) ∷ m.live }

module _ (o : ByteOrder) (m : Msg) (w : IsWhole m) where
  serialize-Writes_msg : Writes o (msg_bytes o m) (serialize m)
  unfolding serialize payload_size_bytes
  serialize-Writes_msg =
      rw
        (take_all (payload_size_bytes m) m.payload
          (unfold payload_size_bytes in omega (arith, w.counted, w.widths.length_32)))
        (Writes-then o (header_bytes o m.header) m.payload _ _
          (serialize-Writes o m.header w.widths) (Writes-bytes o m.payload))

  abbrev fresh : FixedOutputStream
  fresh = make_over (replicate m.header.length 0) m.header.length o

  fresh-IsValid : IsValid fresh
  unfolding make_over
  fresh-IsValid = record {
    whole = length-replicate m.header.length 0;
    within = omega arith;
    small = omega (arith, w.widths.length_32);
  }

  -- The message fills the buffer.
  filled :
      (os : FixedOutputStream) × (serialize m fresh ≡ ok tt os)
      × (os.buffer ≡ msg_bytes o m)
      × (take os.offset os.buffer ≡ msg_bytes o m)
  unfolding make_over written
  filled =
      let (os, run, wrote) =
        serialize-Writes_msg.fits fresh fresh-IsValid refl
          (omega (arith, length-msg_bytes o m w)) in
      let bytes : written os ≡ msg_bytes o m = wrote.bytes_added in
      let full : length os.buffer ≤ os.offset = omega (
        arith,
        length-written os wrote.valid,
        ap length bytes,
        wrote.valid.whole,
        wrote.same_size,
        length-msg_bytes o m w,
      ) in
      (os, run, sym (take_all os.offset os.buffer full) ∙ bytes, bytes)

  -- Where there is memory, a new buffer holds the message; otherwise nothing is allocated.
  pub serialize_msg_lem :
      (room : ℕ → Bool) (memory : Memory)
      → (serialize_msg room o m memory
          ≡ err e_nomem (record { next = suc memory.next; live = memory.live }))
        ⊎ (serialize_msg room o m memory
            ≡ ok (memory.next, msg_bytes o m) (with_buffer (msg_bytes o m) memory))
  unfolding serialize_msg
  serialize_msg_lem room memory = elim (Bool-cases (room memory.next)) [
    | inr full ↦
        let no_room =
          allocate-full room (request_buffer (replicate m.header.length 0)) memory full in
        inl (rw (no_room, serialize_msg, no_room))
    | inl free_room ↦
        let gives =
          allocate-room room (request_buffer (replicate m.header.length 0)) memory free_room in
        let (os, run, whole, bytes) = filled in
        inr (
          rw (
            gives,
            serialize_msg,
            run,
            gives,
            bytes,
            replace-head memory.next (request_buffer (replicate m.header.length 0))
                (request_buffer os.buffer) memory.live,
            whole,
          ))
  ]
