-- ===== src/Msg/Frame/Delivery.antt =====
-- src/msg/msg_frame_reader.cpp, lines 50-93: what reading a batch hands to the listener.
use mathlib.Core.Path.{fun_ext}
use commutil.Common.{
  ℕ, suc, ◌+◌, ◌<◌, ◌≡◌, ◌≢◌, refl, sym, ap, ◌∙◌, Bool, true, false, List, [], ◌∷◌, ◌++◌, arith,
  length, u32_mod, ◌==◌, length-append, le→ltb, take_prefix,
}
use commutil.Err.{e_data_corrupt, Out, ok, err, ◌>>◌, return}
use commutil.Io.Bytes.{ByteOrder}
use commutil.Io.FixedInput
use commutil.Io.FixedInput.{FixedInputStream, fixed_input, contents}
use commutil.Io.Serializable.Reader.{Reads-uint}
use commutil.Msg.Header.{MsgHeader}
use commutil.Msg.Batch.{MsgBufferArray, open_batch, read_batch_size}
use commutil.Msg.Batch.RoundTrip.{
  buffers_bytes, batch_bytes, buffers_size, length-batch_bytes, length-buffers_bytes,
  length-le-buffers_size, read_msg_lem,
}
use commutil.Msg.Frame.{FrameListener, read_msgs, read_batch}

opened :
    (bytes : List ℕ) (o : ByteOrder)
    → length bytes < u32_mod
    → FixedInput.IsValid (open_batch bytes o)
      × (contents (open_batch bytes o) ≡ bytes)
      × ((open_batch bytes o).byte_order ≡ o)
unfolding open_batch contents
opened bytes o h = (record { whole = refl; within = omega arith; small = h }, refl, refl)

-- The count comes first.
read_count :
    (o : ByteOrder) (bs : MsgBufferArray)
    → 4 + buffers_size bs < u32_mod
    → (t : FixedInputStream) × (read_batch_size (open_batch (batch_bytes o bs) o)
        ≡ ok (length bs) t)
      × FixedInput.IsValid t
      × (contents t ≡ buffers_bytes t.byte_order bs)
unfolding read_batch_size
read_count o bs h =
    let (valid, all, same) = opened (batch_bytes o bs) o (omega (arith, length-batch_bytes o bs)) in
    let (t, run, (v, left, kept)) =
      Reads-uint o 4 (length bs) (omega arith) (omega (arith, length-le-buffers_size bs))
        (open_batch (batch_bytes o bs) o) (buffers_bytes o bs) valid same all in
    (t, run, v, left ∙ ap (λ q. buffers_bytes q bs) (sym (kept ∙ same)))

-- The last message of the batch is not empty.
abbrev pub EndsNonempty : MsgBufferArray → Type 0
EndsNonempty [] = Unit
EndsNonempty (b ∷ []) = 0 < length b
EndsNonempty (b ∷ c ∷ bs) = EndsNonempty (c ∷ bs)

abbrev pub is_last : MsgBufferArray → Bool
is_last [] = true
is_last (b ∷ bs) = false

module _ {L : Type 0} (listener : FrameListener L) where
  open listener use {handle_msg, handle_msg_error}

  -- The messages in order, each once, the last one marked, up to the first that the listener
  -- refuses.
  unfoldable pub deliver : MsgHeader → ℕ → MsgBufferArray → L → Out L (Unit {0})
  deliver h n [] = return tt
  deliver h n (b ∷ bs) = handle_msg h b (is_last bs) n >> deliver h n bs

  some_bytes :
      (o : ByteOrder) (b : List ℕ) (bs : MsgBufferArray)
      → EndsNonempty (b ∷ bs)
      → 0 < length b + length (buffers_bytes o bs)
  some_bytes o b [] h = omega arith
  some_bytes o b (c ∷ bs) h = omega (arith, length-buffers_bytes o (c ∷ bs))

  last_round : (bs : MsgBufferArray) (i n : ℕ) → i + suc (length bs) ≡ n → (i + 1 == n) ≡ is_last bs
  last_round [] i n h = ground arith
  last_round (c ∷ bs) i n h = ground arith

  read_msgs_lem :
      (bs : MsgBufferArray) (i n : ℕ) (h : MsgHeader) (s : FixedInputStream) (l : L)
      → FixedInput.IsValid s
      → contents s ≡ buffers_bytes s.byte_order bs
      → i + length bs ≡ n
      → EndsNonempty bs
      → buffers_size bs < u32_mod
      → read_msgs listener (length bs) i n h s l ≡ deliver h n bs l
  unfolding read_msgs deliver
  read_msgs_lem [] i n h s l v c k ends size = refl
  read_msgs_lem (b ∷ bs) i n h s l v c k ends size =
      let (t, run, (valid, left, same)) =
        read_msg_lem b (buffers_bytes s.byte_order bs) s v (omega arith)
          (some_bytes s.byte_order b bs ends) c in
      rw
        (
          run,
          read_msgs,
          le→ltb (length (b ++ buffers_bytes s.byte_order bs)) (length b)
              (omega (arith, length-append b (buffers_bytes s.byte_order bs))),
          take_prefix (length b) b (buffers_bytes s.byte_order bs) refl,
          last_round bs i n k,
        )
        (ap (λ (go : L → Out L (Unit {0})). (handle_msg h b (is_last bs) n >> go) l)
          (fun_ext λ m.
            read_msgs_lem bs (i + 1) n h t m valid (left ∙ ap (λ o. buffers_bytes o bs) (sym same))
              (omega arith) (ends_rest bs ends) (omega arith)))
    where
      ends_rest : (cs : MsgBufferArray) → EndsNonempty (b ∷ cs) → EndsNonempty cs
      ends_rest [] e = tt
      ends_rest (x ∷ xs) e = e

  -- A payload that holds a batch, under a header that states its count, is delivered message by
  -- message, provided that the last message is not empty.
  pub read_batch_lem :
      (o : ByteOrder) (h : MsgHeader) (bs : MsgBufferArray) (l : L)
      → h.batch_size ≡ length bs
      → EndsNonempty bs
      → 4 + buffers_size bs < u32_mod
      → read_batch listener o h (batch_bytes o bs) l ≡ deliver h (length bs) bs l
  unfolding read_batch
  read_batch_lem o h bs l count ends size =
      let (t, run, valid, left) = read_count o bs size in
      rw (run, read_batch, counted)
        (read_msgs_lem bs 0 (length bs) h t l valid left (omega arith) ends (omega arith))
    where
      counted : (length bs == h.batch_size) ≡ true
      counted = ground arith

  -- A batch under a header that states another count is not delivered: the listener hears of one
  -- error, E_DATA_CORRUPT, which is returned.
  pub read_batch_miscounted :
      (o : ByteOrder) (h : MsgHeader) (bs : MsgBufferArray) (l : L)
      → h.batch_size ≢ length bs
      → 4 + buffers_size bs < u32_mod
      → read_batch listener o h (batch_bytes o bs) l
        ≡ err e_data_corrupt (handle_msg_error h e_data_corrupt l)
  unfolding read_batch
  read_batch_miscounted o h bs l count size =
      let (t, run, valid, left) = read_count o bs size in rw (run, read_batch, differs)
    where
      differs : (length bs == h.batch_size) ≡ false
      differs = ground arith
