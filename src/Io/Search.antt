-- ===== src/Io/Search.antt =====
-- src/commutil_common.cpp, lines 29-93: the search of a pattern in a buffer, by Knuth, Morris and Pratt. Lengths and
-- indexes fit in an int of 32 bits.
use commutil.Common.{
  ℕ, zero, suc, ◌+◌, ◌-◌, Bool, true, false, Option, none, some, List, [], ◌∷◌, ◌++◌, length,
  get_elem?, drop, ltb, ◌==◌, if◌then◌else◌,
}
use commutil.Err.{Out, ok, fault}

-- Two characters at indexes in range are the same.
unfoldable pub same_char : Option ℕ → Option ℕ → Bool
same_char (some a) (some b) = a == b
same_char (some a) none = false
same_char none b = false

-- The number that an int index stands for after `++`: -1 is `none`.
abbrev pub increment : Option ℕ → ℕ
increment none = 0
increment (some j) = suc j

-- The inner loop of `kmp_borders`, for a j of fewer than `rounds`: the borders of the prefix, shorter
-- and shorter, up to one that the character at i extends.
unfoldable pub fall_back : ℕ → List ℕ → List (Option ℕ) → ℕ → Option ℕ → Option ℕ
unfolding same_char
fall_back rounds needle borders i none = none
fall_back zero needle borders i (some j) = some j
fall_back (suc rounds) needle borders i (some j) =
    elim (same_char (get_elem? needle i) (get_elem? needle j)) [
      | true ↦ some j
      | false ↦ elim (get_elem? borders j) [
        | none ↦ none
        | some b ↦ fall_back rounds needle borders i b
      ]
    ]

-- The outer loop, for the rounds left: the entries 0 to i are there, and j is the last of them.
unfoldable pub build_borders : ℕ → List ℕ → List (Option ℕ) → ℕ → Option ℕ → List (Option ℕ)
unfolding fall_back
build_borders zero needle borders i j = borders
build_borders (suc rounds) needle borders i j =
    let next = increment (fall_back (increment j) needle borders i j) in
    build_borders rounds needle (borders ++ some next ∷ []) (i + 1) (some next)

unfoldable pub kmp_borders : List ℕ → List (Option ℕ)
unfolding build_borders
kmp_borders needle = build_borders (length needle) needle (none ∷ []) 0 none

-- The first inner loop of `kmp_search`: how many characters of the needle's rest match those of the
-- haystack's, up to a null. `none`: the haystack is read past its end.
unfoldable pub match_length : List ℕ → List ℕ → Option ℕ
match_length [] hay = some 0
match_length (n ∷ needle) [] = none
match_length (n ∷ needle) (h ∷ hay) = if h == 0 then some 0 else elim (n == h) [
  | true ↦ elim (match_length needle hay) [ none ↦ none | some k ↦ some (suc k) ]
  | false ↦ some 0
]

-- The second: i and j after a mismatch at the character c, for a j of fewer than `rounds`.
unfoldable pub shift_back : ℕ → List ℕ → List (Option ℕ) → ℕ → ℕ → ℕ → Option (ℕ × ℕ)
unfolding same_char
shift_back zero needle borders c i j = none
shift_back (suc rounds) needle borders c i j = elim (get_elem? borders j) [
  | none ↦ none
  | some none ↦ none
  | some (some b) ↦
      let rest = shift_back rounds needle borders c (i + (j - b)) b in
      if b == 0
      then some (i + (j - b), b)
      else if same_char (get_elem? needle b) (some c)
      then some (i + (j - b), b)
      else rest
]

-- The outer loop, for the rounds left; the pointer is at i + j. The result is an offset, or `none`
-- for -1.
unfoldable pub search_from :
    ℕ → List ℕ → List ℕ → List (Option ℕ) → ℕ → ℕ → ℕ → Out (Unit {0}) (Option ℕ)
unfolding match_length shift_back
search_from zero hay needle borders max_index i j = ok none tt
search_from (suc rounds) hay needle borders max_index i j =
    if ltb max_index i then ok none tt else elim (match_length (drop j needle) (drop (i + j) hay)) [
      | none ↦ fault
      | some k ↦
          if j + k == length needle
          then ok (some (i + j + k - length needle)) tt
          else elim (get_elem? hay (i + j + k)) [
            | none ↦ fault
            | some c ↦
                if c == 0
                then ok none tt
                else if j + k == 0
                then search_from rounds hay needle borders max_index (i + 1) 0
                else elim (shift_back (j + k) needle borders c i (j + k)) [
                  | none ↦ fault
                  | some (i', j') ↦ search_from rounds hay needle borders max_index i' j'
                ]
          ]
    ]

-- Each round moves i on, so that max_index + 1 of them suffice.
unfoldable pub kmp_search : List ℕ → List ℕ → List (Option ℕ) → Out (Unit {0}) (Option ℕ)
unfolding search_from
kmp_search hay needle borders =
    search_from (length hay - length needle + 1) hay needle borders (length hay - length needle) 0 0

-- `commutil_strnstr`; there is memory for the borders.
unfoldable pub strnstr : List ℕ → List ℕ → Out (Unit {0}) (Option ℕ)
unfolding kmp_borders kmp_search
strnstr hay needle =
    if ltb (length hay) (length needle)
    then ok none tt
    else kmp_search hay needle (kmp_borders needle)

-- `strncmp(a, b, n) == 0`, over characters that are there: equal up to a null that both have.
unfoldable pub strncmp_equal : List ℕ → List ℕ → ℕ → Bool
strncmp_equal a b zero = true
strncmp_equal [] b (suc n) = false
strncmp_equal (x ∷ a) [] (suc n) = false
strncmp_equal (x ∷ a) (y ∷ b) (suc n) =
    let rest = strncmp_equal a b n in if x == y then (if x == 0 then true else rest) else false
