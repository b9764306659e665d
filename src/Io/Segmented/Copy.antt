-- ===== src/Io/Segmented/Copy.antt =====
-- src/io/segmented_input_stream.cpp, copyBytes: what it copies and what it leaves.
use commutil.Common.{
  ℕ, ◌+◌, ◌-◌, ◌≤◌, ◌<◌, ◌≡◌, ◌≢◌, refl, sym, ap, ◌∙◌, false, inl, inr, List, [], ◌∷◌, ◌++◌,
  flatten, append_assoc, arith, length, take, drop, ltb, ◌==◌, add32, sub32, u32_mod, length-append,
  length-drop, take-append_le, take-append_ge, drop-append_le, take_all, drop-drop, drop_prefix,
  Bool-cases, ltb→lt, ltb→le, le→ltb,
}
use mathlib.Core.Path.{subst}
use commutil.Err.{ok}
use commutil.Io.Bytes.{ByteOrder}
use commutil.Io.Segmented.{SegmentedInputStream, copy_last, copy_segments, copy_bytes}

-- The bytes that are still to be read, of the nodes from an offset into the first.
abbrev pub unread : List (List ℕ) → ℕ → List ℕ
unread [] offset = []
unread (node ∷ rest) offset = drop offset node ++ flatten rest

abbrev pub contents : SegmentedInputStream → List ℕ
contents s = unread s.segments s.offset

-- The offset lies in the head node; with no node it is 0.
abbrev pub OffsetFits : List (List ℕ) → ℕ → Type 0
OffsetFits [] offset = offset ≡ 0
OffsetFits (node ∷ rest) offset = offset ≤ length node

pub record IsValid (s : SegmentedInputStream) : Type 0 where
  pub within : OffsetFits s.segments s.offset
  pub counted : s.size ≡ length (contents s)
  pub small : length (flatten s.segments) < u32_mod

-- Every buffer that was appended, in order: each is either deallocated or still in the list.
abbrev pub owned : SegmentedInputStream → List (List ℕ)
owned s = s.freed ++ s.segments

-- `t` is `s` after k bytes were consumed.
pub record Advanced (k : ℕ) (s t : SegmentedInputStream) : Type 0 where
  pub valid : IsValid t
  pub rest : contents t ≡ drop k (contents s)
  pub buffers : owned t ≡ owned s
  pub same_order : t.byte_order ≡ s.byte_order

unread-zero : (segments : List (List ℕ)) → unread segments 0 ≡ flatten segments
unfolding flatten
unread-zero [] = refl
unread-zero (x ∷ xs) = refl

OffsetFits-zero : (segments : List (List ℕ)) → OffsetFits segments 0
OffsetFits-zero [] = refl
OffsetFits-zero (x ∷ xs) = omega arith

length-flatten-cons :
    (x : List ℕ) (xs : List (List ℕ)) → length (flatten (x ∷ xs)) ≡ length x + length (flatten xs)
unfolding flatten
length-flatten-cons x xs = length-append x (flatten xs)

length-flatten-nil : length (flatten {A = ℕ} []) ≡ 0
unfolding flatten
length-flatten-nil = refl

module _ (x : List ℕ) (xs : List (List ℕ)) (offset size : ℕ) (freed : List (List ℕ))
    (o : ByteOrder) where
  abbrev before : SegmentedInputStream
  before = record { segments = x ∷ xs; offset = offset; size = size; freed = freed; byte_order = o }

  -- The state after the head node was given up.
  abbrev popped : ℕ → SegmentedInputStream
  popped k = record {
    segments = xs;
    offset = 0;
    size = sub32 size k;
    freed = freed ++ x ∷ [];
    byte_order = o;
  }

  module _ (v : IsValid before) where
    length-unread : length (unread (x ∷ xs) offset) ≡ length x - offset + length (flatten xs)
    length-unread = omega (arith, length-append (drop offset x) (flatten xs), length-drop offset x)

    popped-Advanced : (k : ℕ) → k ≡ length x - offset → Advanced k before (popped k)
    popped-Advanced k e = record {
      valid = record {
        within = OffsetFits-zero xs;
        counted =
            rw unread-zero (
              omega (arith, length-unread, v.counted, v.small, length-flatten-cons x xs, v.within));
        small = omega (arith, v.small, length-flatten-cons x xs);
      };
      rest =
          unread-zero xs
          ∙ sym (drop_prefix k (drop offset x) (flatten xs) (omega (arith, length-drop offset x)));
      buffers = append_assoc freed (x ∷ []) xs;
      same_order = refl;
    }

    advanced : ℕ → SegmentedInputStream
    advanced k = record before { offset = offset + k; size = sub32 size k }

    advanced-Advanced : (k : ℕ) → k ≤ length x - offset → Advanced k before (advanced k)
    unfolding advanced
    advanced-Advanced k h = record {
      valid = record {
        within = omega (arith, v.within);
        counted = rw rest (
            omega (
              arith,
              v.counted,
              v.small,
              length-drop k (unread (x ∷ xs) offset),
              length-unread,
              length-flatten-cons x xs,
              v.within,
            ));
        small = v.small;
      };
      rest = rest;
      buffers = refl;
      same_order = refl;
    }
      where
        rest : drop (offset + k) x ++ flatten xs ≡ drop k (drop offset x ++ flatten xs)
        rest = rw (
          drop-append_le k (drop offset x) (flatten xs) (omega (arith, length-drop offset x)),
          drop-drop k offset x,
        )

    module _ (n copied : ℕ) (out : List ℕ) (word : n < u32_mod) (h : copied ≤ n) where
      copy_last_lem :
          n - copied ≤ length x - offset
          → (t : SegmentedInputStream) × (copy_last x n copied out before
              ≡ ok (out ++ take (n - copied) (unread (x ∷ xs) offset)) t)
            × Advanced (n - copied) before t
      unfolding copy_last advanced
      copy_last_lem k = elim (Bool-cases (add32 offset (n - copied) == length x)) [
        | inl full ↦ (
          popped (n - copied),
          rw (count, full, part),
          popped-Advanced (n - copied) (ground arith),
        )
        | inr more ↦
            (advanced (n - copied), rw (count, more, part, moved), advanced-Advanced (n - copied) k)
      ]
        where
          count : sub32 n copied ≡ n - copied
          count = omega arith

          part : take (n - copied) (drop offset x ++ flatten xs) ≡ take (n - copied) (drop offset x)
          part = take-append_le _ _ _ (omega (arith, length-drop offset x))

          moved : add32 offset (n - copied) ≡ offset + (n - copied)
          moved = omega (arith, v.small, v.within, length-flatten-cons x xs)

Advanced-trans :
    (j k : ℕ) {s t u : SegmentedInputStream}
    → Advanced j s t
    → Advanced k t u
    → Advanced (j + k) s u
Advanced-trans j k {s} a b = record {
  valid = b.valid;
  rest = b.rest ∙ ap (drop k) a.rest ∙ drop-drop k j (contents s);
  buffers = b.buffers ∙ a.buffers;
  same_order = b.same_order ∙ a.same_order;
}

module _ (x : List ℕ) (offset copied : ℕ) (fits : offset ≤ length x) where
  to_copy : length x < u32_mod → sub32 (length x) offset ≡ length x - offset
  to_copy h = omega arith

  copied_next :
      length x < u32_mod
      → copied + length x < offset + u32_mod
      → add32 copied (sub32 (length x) offset) ≡ copied + (length x - offset)
  copied_next h k = omega arith

-- The loop gives up one node after another until the rest of the bytes lies in one node.
copy_segments_lem :
    (xs : List (List ℕ)) (x : List ℕ) (offset size : ℕ) (freed : List (List ℕ)) (o : ByteOrder)
    (n copied : ℕ) (out : List ℕ)
    → IsValid (before x xs offset size freed o)
    → copied + length (unread (x ∷ xs) offset) < u32_mod
    → copied ≤ n
    → n - copied ≤ length (unread (x ∷ xs) offset)
    → (t : SegmentedInputStream) × (copy_segments
          (x ∷ xs)
          n
          copied
          out
          (before x xs offset size freed o)
        ≡ ok (out ++ take (n - copied) (unread (x ∷ xs) offset)) t)
      × Advanced (n - copied) (before x xs offset size freed o) t
unfolding copy_segments flatten
copy_segments_lem [] x offset size freed o n copied out v word h k =
    rw (copied_next x offset copied v.within word_x room, last)
      (copy_last_lem x [] offset size freed o v n copied out (omega (arith, word, k, h)) h
        (omega (arith, whole, k)))
  where
    whole : length (drop offset x ++ flatten []) ≡ length x - offset
    whole = omega (arith, length-unread x [] offset size freed o v, length-flatten-nil)

    word_x : length x < u32_mod
    word_x = omega (arith, v.small, length-flatten-cons x [])

    room : copied + length x < offset + u32_mod
    room = omega (arith, whole, word)

    last : ltb (copied + (length x - offset)) n ≡ false
    last = le→ltb _ _ (omega (arith, whole, k, h))
copy_segments_lem (y ∷ ys) x offset size freed o n copied out v word h k =
    elim (Bool-cases (ltb (copied + (length x - offset)) n)) [
      | inl more ↦
          let adv = popped-Advanced x (y ∷ ys) offset size freed o v (length x - offset) refl in
          let (t, run, rest) =
            copy_segments_lem ys y 0 (sub32 size (length x - offset)) (freed ++ x ∷ []) o n
              (copied + (length x - offset)) (out ++ take (length x - offset) (drop offset x))
              adv.valid (omega (arith, whole, word)) (omega (arith, ltb→lt _ _ more))
              (omega (arith, whole, k, h)) in
          (
            t,
            rw (sum, more, count) (run ∙ ap (λ bs. ok bs t) (joined (ltb→lt _ _ more))),
            subst (λ j. Advanced j (before x (y ∷ ys) offset size freed o) t)
                (omega (arith, ltb→lt _ _ more)) (Advanced-trans _ _ adv rest),
          )
      | inr last ↦
          rw (sum, last)
            (copy_last_lem x (y ∷ ys) offset size freed o v n copied out (omega (arith, word, k, h))
              h (omega (arith, ltb→le _ _ last)))
    ]
  where
    whole :
        length (drop offset x ++ flatten (y ∷ ys)) ≡ length x - offset + length (flatten (y ∷ ys))
    whole = length-unread x (y ∷ ys) offset size freed o v

    word_x : length x < u32_mod
    word_x = omega (arith, v.small, length-flatten-cons x (y ∷ ys))

    count : sub32 (length x) offset ≡ length x - offset
    count = to_copy x offset copied v.within word_x

    sum : add32 copied (sub32 (length x) offset) ≡ copied + (length x - offset)
    sum = copied_next x offset copied v.within word_x (omega (arith, whole, word))

    joined :
        copied + (length x - offset) < n
        → (out ++ take (length x - offset) (drop offset x))
            ++ take (n - (copied + (length x - offset))) (flatten (y ∷ ys))
          ≡ out ++ take (n - copied) (drop offset x ++ flatten (y ∷ ys))
    joined more =
        rw
          (
            take_all (length x - offset) (drop offset x) (omega (arith, length-drop offset x)),
            take-append_ge (n - copied) (drop offset x) (flatten (y ∷ ys))
                (omega (arith, length-drop offset x)),
            append_assoc,
          )
          (ap (λ j. out ++ (drop offset x ++ take j (flatten (y ∷ ys))))
            (omega (arith, length-drop offset x)))

-- A stream is the record of its fields, whatever its nodes are called.
pub by_nodes {ℓ} :
    (P : SegmentedInputStream → Type ℓ) (s : SegmentedInputStream) (segments : List (List ℕ))
    → s.segments ≡ segments
    → P (record s { segments = segments })
    → P s
by_nodes P s segments e p = subst P (λ i. record s { segments = sym e i }) p

-- The copy ran to its end.
abbrev pub Copies : ℕ → SegmentedInputStream → Type 0
Copies n s =
    (t : SegmentedInputStream) × (copy_bytes n s ≡ ok (take n (contents s)) t) × Advanced n s t

copy_nodes :
    (n : ℕ) (s : SegmentedInputStream) (segments : List (List ℕ))
    → segments ≢ []
    → IsValid (record s { segments = segments })
    → n ≤ length (unread segments s.offset)
    → Copies n (record s { segments = segments })
unfolding copy_bytes
copy_nodes n s [] some v h = absurd (some refl)
copy_nodes n s (x ∷ xs) some v h = rw (whole n) at (
    copy_segments_lem xs x s.offset s.size s.freed s.byte_order n 0 [] v
      (omega (
        arith,
        length-unread x xs s.offset s.size s.freed s.byte_order v,
        length-flatten-cons x xs,
        v.small,
      ))
      (omega arith) (omega arith))
  where
    whole : (m : ℕ) → m - 0 ≡ m
    whole m = omega arith

-- A copy of as many bytes as there are ends, takes the first of them, and keeps the stream valid;
-- it asks for a head node, also where no byte is copied.
pub copy_bytes_lem :
    (n : ℕ) (s : SegmentedInputStream)
    → IsValid s
    → s.segments ≢ []
    → n ≤ length (contents s)
    → Copies n s
copy_bytes_lem n s v some h = copy_nodes n s s.segments some v h
