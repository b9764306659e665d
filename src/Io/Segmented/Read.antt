-- ===== src/Io/Segmented/Read.antt =====
-- src/io/segmented_input_stream.cpp: readBytes, skipBytes, peekBytes, appendBuffer and reset, against the
-- bytes that the stream holds and the buffers that it owns.
use commutil.Common.{
  ℕ, ◌+◌, ◌≤◌, ◌<◌, min, ◌≡◌, ◌≢◌, ◌↔◌, ◌⊎◌, refl, sym, ap, inl, inr, List, [], ◌∷◌, ◌++◌, flatten,
  append_assoc, append-nil, arith, length, take, drop, add32, sub32, u32_mod, length-append,
  length-drop,
}
use commutil.Err.{ok, fault, ◌>>=◌}
use commutil.Io.Bytes.{ByteOrder}
use commutil.Io.Stream.{InputStream}
use commutil.Io.Segmented.{
  SegmentedInputStream, reset, append_buffer, copy_bytes, copy_segments, read_bytes, skip_bytes,
  peek_segments, peek_bytes,
}
use commutil.Io.Segmented.Copy.{
  unread, contents, IsValid, OffsetFits, owned, Advanced, copy_bytes_lem,
}

-- How many bytes a request of n bytes gets.
abbrev pub granted : ℕ → SegmentedInputStream → ℕ
granted n s = min n (length (contents s))

module _ (n : ℕ) (s : SegmentedInputStream) (v : IsValid s) where
  all_granted : min s.size n ≡ granted n s
  all_granted = omega (arith, v.counted)

  -- While there is a node, a read returns the bytes asked for, or all there are if they are fewer.
  pub read_bytes_lem :
      s.segments ≢ []
      → (t : SegmentedInputStream) × (read_bytes n s ≡ ok (take (granted n s) (contents s)) t)
        × Advanced (granted n s) s t
  unfolding read_bytes
  read_bytes_lem some = rw all_granted (copy_bytes_lem (granted n s) s v some (omega arith))

  -- A skip leaves the stream as the read would, and returns the number of bytes.
  pub skip_bytes_lem :
      s.segments ≢ []
      → (t : SegmentedInputStream) × (skip_bytes n s ≡ ok (granted n s) t)
        × Advanced (granted n s) s t
  unfolding skip_bytes
  skip_bytes_lem some =
      let (t, run, adv) = copy_bytes_lem (granted n s) s v some (omega arith) in
      (t, rw (all_granted, ◌>>=◌, run, all_granted), adv)

-- The two loops go through the same nodes.
peek_segments_lem :
    (segments : List (List ℕ)) (offset size : ℕ) (freed : List (List ℕ)) (o : ByteOrder)
    (n copied : ℕ) (out bytes : List ℕ) (t : SegmentedInputStream)
    → copy_segments segments n copied out (record {
      segments = segments;
      offset = offset;
      size = size;
      freed = freed;
      byte_order = o;
    })
      ≡ ok bytes t
    → peek_segments segments offset n copied out ≡ ok bytes tt
unfolding copy_segments peek_segments
peek_segments_lem [] offset size freed o n copied out bytes t run = cc
peek_segments_lem (x ∷ xs) offset size freed o n copied out bytes t run = ground (
  arith,
  peek_segments_lem xs 0 (sub32 size (sub32 (length x) offset)) (freed ++ x ∷ []) o n
      (add32 copied (sub32 (length x) offset))
      (out ++ take (sub32 (length x) offset) (drop offset x)) bytes t,
)

-- A peek returns what the read would return, and changes nothing.
pub peek_bytes_lem :
    (n : ℕ) (s : SegmentedInputStream)
    → IsValid s
    → s.segments ≢ []
    → (peek_bytes n s ≡ ok (take (granted n s) (contents s)) s)
      × ((t : SegmentedInputStream) × (read_bytes n s ≡ ok (take (granted n s) (contents s)) t))
unfolding peek_bytes read_bytes copy_bytes
peek_bytes_lem n s v some =
    let (t, run, adv) = read_bytes_lem n s v some in
    (
      rw (
        peek_segments_lem s.segments s.offset s.size s.freed s.byte_order (min s.size n) 0 []
            (take (granted n s) (contents s)) t run,
        peek_bytes,
      ),
      (t, run),
    )

List-cases : (xs : List (List ℕ)) → (xs ≡ []) ⊎ (xs ≢ [])
List-cases [] = inl refl
List-cases (x ∷ xs) = inr (λ e. cc)

-- The calls that copy have no defined behaviour exactly on a stream with no node: m_head is read
-- there before it is tested, also for a request of no byte.
pub copy_fault :
    (n : ℕ) (s : SegmentedInputStream)
    → IsValid s
    → ((read_bytes n s ≡ fault) ↔ (s.segments ≡ []))
      × ((skip_bytes n s ≡ fault) ↔ (s.segments ≡ []))
      × ((peek_bytes n s ≡ fault) ↔ (s.segments ≡ []))
unfolding read_bytes skip_bytes peek_bytes copy_bytes copy_segments
copy_fault n s v = elim (List-cases s.segments) [
  | inl e ↦
      (((λ _. e), λ _. rw e), ((λ _. e), λ _. rw (e, ◌>>=◌)), ((λ _. e), λ _. rw (e, peek_bytes)))
  | inr some ↦
      let (t, reads, _) = read_bytes_lem n s v some in
      let (u, skips, _) = skip_bytes_lem n s v some in
      let (peeks, _) = peek_bytes_lem n s v some in
      (
        ((λ f. cc), λ e. absurd (some e)),
        ((λ f. cc), λ e. absurd (some e)),
        ((λ f. cc), λ e. absurd (some e)),
      )
]

flatten_snoc : (xs : List (List ℕ)) (b : List ℕ) → flatten (xs ++ b ∷ []) ≡ flatten xs ++ b
unfolding flatten
flatten_snoc [] b = append-nil b
flatten_snoc (x ∷ xs) b = rw (flatten_snoc xs b) (sym (append_assoc x (flatten xs) b))

length-unread-le :
    (segments : List (List ℕ)) (offset : ℕ)
    → length (unread segments offset) ≤ length (flatten segments)
unfolding flatten
length-unread-le [] offset = omega arith
length-unread-le (x ∷ xs) offset = omega (
  arith,
  length-append (drop offset x) (flatten xs),
  length-append x (flatten xs),
  length-drop offset x,
)

unread_snoc :
    (segments : List (List ℕ)) (offset : ℕ) (b : List ℕ)
    → OffsetFits segments offset
    → (unread (segments ++ b ∷ []) offset ≡ unread segments offset ++ b)
      × OffsetFits (segments ++ b ∷ []) offset
unfolding flatten
unread_snoc [] offset b fits = (rw fits (append-nil b), omega arith)
unread_snoc (x ∷ xs) offset b fits =
    (rw flatten_snoc (sym (append_assoc (drop offset x) (flatten xs) b)), fits)

-- Appending puts the buffer behind what is there, and takes it into ownership.
pub append_buffer_lem :
    (buffer : List ℕ) (s : SegmentedInputStream)
    → IsValid s
    → length (flatten s.segments) + length buffer < u32_mod
    → IsValid (append_buffer buffer s)
      × (contents (append_buffer buffer s) ≡ contents s ++ buffer)
      × (owned (append_buffer buffer s) ≡ owned s ++ buffer ∷ [])
unfolding append_buffer
append_buffer_lem buffer s v h = (
  record {
    within = snoc.1;
    counted = rw snoc.0 (
        omega (
          arith,
          v.counted,
          length-append (contents s) buffer,
          length-unread-le s.segments s.offset,
        ));
    small = rw flatten_snoc (omega (arith, length-append (flatten s.segments) buffer));
  },
  snoc.0,
  sym (append_assoc s.freed s.segments (buffer ∷ [])),
)
  where
    snoc :
        (unread (s.segments ++ buffer ∷ []) s.offset ≡ unread s.segments s.offset ++ buffer)
        × OffsetFits (s.segments ++ buffer ∷ []) s.offset
    snoc = unread_snoc s.segments s.offset buffer v.within

-- After a reset nothing is left to read and every buffer is deallocated. The stream can be used
-- again exactly if no byte of the head node had been read: m_offset is not cleared.
pub reset_lem :
    (s : SegmentedInputStream)
    → IsValid s
    → (contents (reset s) ≡ []) × ((reset s).freed ≡ owned s) × (IsValid (reset s) ↔ (s.offset ≡ 0))
unfolding reset flatten
reset_lem s v =
    (refl, refl, (λ w. w.within, λ e. record { within = e; counted = refl; small = omega arith }))

pub nonempty : (s : SegmentedInputStream) → 0 < length (contents s) → s.segments ≢ []
nonempty s h e = absurd (omega (arith, ap (λ xs. length (unread xs s.offset)) e))

pub read_bytes_pos :
    (n : ℕ) (s : SegmentedInputStream)
    → IsValid s
    → 0 < n
    → n ≤ length (contents s)
    → (t : SegmentedInputStream) × (read_bytes n s ≡ ok (take n (contents s)) t)
      × IsValid t
      × (contents t ≡ drop n (contents s))
      × (t.byte_order ≡ s.byte_order)
read_bytes_pos n s v pos h =
    let (t, run, adv) = read_bytes_lem n s v (nonempty s (omega arith)) in
    (t, rw least at run, adv.valid, rw least at adv.rest, adv.same_order)
  where
    least : granted n s ≡ n
    least = omega arith

instance abbrev pub segmented_input : InputStream SegmentedInputStream
segmented_input = record {
  size = λ s. s.size;
  byte_order = λ s. s.byte_order;
  peek_bytes = peek_bytes;
  read_bytes = read_bytes;
  IsValid = IsValid;
  contents = contents;
  size-contents = λ s v. v.counted;
  read_bytes_lem = read_bytes_pos;
}
