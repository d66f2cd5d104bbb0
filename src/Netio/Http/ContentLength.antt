-- ===== src/Netio/Http/ContentLength.antt =====
-- `HttpBaseMsg::_CheckContentLen` (netio/httpmsg.hpp), on the header lines of a message.
use netlib.Common.{
  ℕ, ◌+◌, ◌*◌, ◌-◌, ◌%◌, ◌^◌, Bool, ◌&&◌, ◌||◌, Option, none, some, List, [], ◌∷◌, ltb, leb, ◌==◌,
  if◌then◌else◌, length, drop, get_or, sub32, ◌<◌, arith, inl, inr, Bool-cases,
}

-- The bytes "Content-Length: " of `_constr`.
abbrev pub constr : List ℕ
constr =
    67 ∷ 111 ∷ 110 ∷ 116 ∷ 101 ∷ 110 ∷ 116 ∷ 45 ∷ 76 ∷ 101 ∷ 110 ∷ 103 ∷ 116 ∷ 104 ∷ 58 ∷ 32 ∷ []

-- The comparison of a line with `_constr`, up to its blank: `pbeg` where the code takes it for a
-- match. `psrc` has moved on when a difference breaks the loop, so the last character before the
-- blank is not compared.
unfoldable pub match_constr : List ℕ → List ℕ → Option (List ℕ)
match_constr pbeg [] = none
match_constr [] (k ∷ ks) = none
match_constr (c ∷ cs) (k ∷ ks) =
    let rest = match_constr cs ks in
    if k == 32
    then some (c ∷ cs)
    else if c == k
    then rest
    else if get_or ks 0 0 == 32
    then some cs
    else none

-- Up to the first `\r`.
unfoldable pub until_cr : List ℕ → List ℕ
until_cr [] = []
until_cr (c ∷ cs) = let rest = until_cr cs in if c == 13 then [] else c ∷ rest

abbrev is_digit : ℕ → Bool
is_digit c = leb 48 c && leb c 57

abbrev is_space : ℕ → Bool
is_space c = (c == 32) || (leb 9 c && leb c 13)

unfoldable pub digits_value : ℕ → List ℕ → ℕ
digits_value v [] = v
digits_value v (c ∷ cs) =
    let rest = digits_value (v * 10 + (c - 48)) cs in if is_digit c then rest else v

-- `atoi`, as a bit pattern: blanks, a sign, digits. At most ten digits come here.
unfoldable pub atoi : List ℕ → ℕ
atoi [] = 0
atoi (c ∷ cs) =
    let rest = atoi cs in
    if is_space c
    then rest
    else if c == 45
    then sub32 0 (digits_value 0 cs)
    else if c == 43
    then digits_value 0 cs % 2 ^ 32
    else digits_value 0 (c ∷ cs) % 2 ^ 32

-- `pbuf` has eleven bytes, one of them for the NUL.
abbrev pub size_digits : ℕ
size_digits = 10

-- One line, its `\r\n` included: `none` if it is passed over, `some none` if its digits overflow
-- `pbuf`.
unfoldable pub line_size : List ℕ → Option (Option ℕ)
line_size line = if ltb (length line) 18 then none else elim (match_constr line constr) [
  | none ↦ none
  | some pbeg ↦
      let text = until_cr (drop 1 pbeg) in
      if ltb size_digits (length text) then some none else some (some (atoi text))
]

-- The loop over `_header_vec`.
unfoldable pub check_content_len : List (List ℕ) → Option ℕ
check_content_len [] = some 0
check_content_len (line ∷ lines) =
    let rest = check_content_len lines in elim (line_size line) [ none ↦ rest | some r ↦ r ]

atoi-lt : (cs : List ℕ) → atoi cs < 2 ^ 32
unfolding atoi
atoi-lt [] = omega arith
atoi-lt (c ∷ cs) = elim (Bool-cases (is_space c)) [
  | inl e ↦ rw e (atoi-lt cs)
  | inr e ↦ elim (Bool-cases (c == 45)) [
    | inl e' ↦ rw (e, e') (omega arith)
    | inr e' ↦ elim (Bool-cases (c == 43)) [
      | inl e'' ↦ rw (e, e', e'') (omega arith)
      | inr e'' ↦ rw (e, e', e'') (omega arith)
    ]
  ]
]

-- The sizes are bit patterns of 32 bits.
abbrev pub IsWord : Option ℕ → Type 0
IsWord none = Unit {0}
IsWord (some n) = n < 2 ^ 32

abbrev pub LineIsWord : Option (Option ℕ) → Type 0
LineIsWord none = Unit {0}
LineIsWord (some r) = IsWord r

line_size-IsWord : (line : List ℕ) → LineIsWord (line_size line)
unfolding line_size
line_size-IsWord line = elim (Bool-cases (ltb (length line) 18)) [
  | inl e ↦ rw e (omega arith)
  | inr e ↦ rw e (sized (match_constr line constr))
]
  where
    sized :
        (r : Option (List ℕ))
        → LineIsWord (elim r [
          | none ↦ none
          | some pbeg ↦
              if ltb size_digits (length (until_cr (drop 1 pbeg)))
              then some none
              else some (some (atoi (until_cr (drop 1 pbeg))))
        ])
    sized none = omega arith
    sized (some pbeg) = elim (Bool-cases (ltb size_digits (length (until_cr (drop 1 pbeg))))) [
      | inl e ↦ rw e (omega arith)
      | inr e ↦ rw e (atoi-lt _)
    ]

pub check_content_len-IsWord : (lines : List (List ℕ)) → IsWord (check_content_len lines)
unfolding check_content_len
check_content_len-IsWord [] = omega arith
check_content_len-IsWord (line ∷ lines) =
    found (line_size line) (line_size-IsWord line) (check_content_len-IsWord lines)
  where
    found :
        (r : Option (Option ℕ))
        → LineIsWord r
        → IsWord (check_content_len lines)
        → IsWord (elim r [ none ↦ check_content_len lines | some o ↦ o ])
    found none h later = later
    found (some o) h later = h
