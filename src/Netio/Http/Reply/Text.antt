-- ===== src/Netio/Http/Reply/Text.antt =====
-- The bytes of a reply (`HttpSvrSendMsg`, netio/httpmsg.hpp), and the length it announces.
use netlib.Common.{
  ℕ, zero, suc, ◌+◌, ◌*◌, ◌-◌, ◌/◌, ◌%◌, ◌^◌, ◌≤◌, ◌<◌, ◌≡◌, refl, sym, ap, subst, ◌∙◌, inl, inr,
  true, false, some, List, [], ◌∷◌, ◌++◌, arith, Bool-cases, ltb, ltb→lt, le→ltb, le→leb, ne_==,
  length, length-append, flatten,
}
use netlib.Base.Buffer.{new, written}
use netlib.Base.Buffer.Valid.{new-IsValid}
use netlib.Base.Buffer.Pack.{write_each-Wrote}
use netlib.Netio.Http.ContentLength.{line_size, match_constr, until_cr, atoi, digits_value}
use netlib.Netio.Http.Reply.{
  decimal, int_digits, http_1_1, ok_200, ok_phrase, html_type, cont_type_text, content_length_text,
  crlf, blank_text, new_reply, set_body, with_defaults, set_http_version, set_status_code,
  set_status_phrase, set_content_type,
}

-- The reply that `SetBody` makes of a fresh message.
abbrev pub page_text : List ℕ → List ℕ
page_text body = flatten (
    http_1_1
    ∷ blank_text
    ∷ ok_200
    ∷ blank_text
    ∷ ok_phrase
    ∷ crlf
    ∷ cont_type_text
    ∷ html_type
    ∷ crlf
    ∷ content_length_text
    ∷ decimal int_digits (length body)
    ∷ (crlf ++ crlf)
    ∷ body
    ∷ [])

length-decimal : (f n : ℕ) → length (decimal f n) ≤ f
unfolding decimal
length-decimal zero n = omega arith
length-decimal (suc f) n = elim (Bool-cases (ltb n 10)) [
  | inl e ↦ rw e (omega arith)
  | inr e ↦ rw e (
      omega
        (arith, length-decimal f (n / 10), length-append (decimal f (n / 10)) ((48 + n % 10) ∷ [])))
]

written-new : written new ≡ []
unfolding new
written-new = refl

-- SetBody on a fresh reply, with a body of less than 2 ^ 31 bytes, succeeds and makes the default
-- status line, the default content type, the length of the body in decimal, the empty line and the
-- body.
pub set_body-text :
    (body : List ℕ)
    → length body < 2 ^ 31
    → ((set_body body new_reply).1 ≡ true)
      × (written (set_body body new_reply).0.buffer ≡ page_text body)
unfolding set_body with_defaults new_reply set_http_version set_status_code set_status_phrase
    set_content_type
set_body-text body small =
    let texts =
      http_1_1
      ∷ blank_text
      ∷ ok_200
      ∷ blank_text
      ∷ ok_phrase
      ∷ crlf
      ∷ cont_type_text
      ∷ html_type
      ∷ crlf
      ∷ content_length_text
      ∷ decimal int_digits (length body)
      ∷ (crlf ++ crlf)
      ∷ body
      ∷ [] in
    let w = write_each-Wrote new texts new-IsValid (
      unfold new in
      omega (
        arith,
        length-decimal int_digits (length body),
        length-append (decimal int_digits (length body)) (crlf ++ crlf ++ (body ++ [])),
        length-append body [],
      )) in
    (refl, w.bytes ∙ ap (λ xs. xs ++ page_text body) written-new)

-- Digits, and what `atoi` makes of them.
AllDigits : List ℕ → Type 0
AllDigits [] = Unit {0}
AllDigits (c ∷ cs) = (48 ≤ c) × (c ≤ 57) × AllDigits cs

AllDigits-append : (xs ys : List ℕ) → AllDigits xs → AllDigits ys → AllDigits (xs ++ ys)
unfolding AllDigits
AllDigits-append [] ys h k = k
AllDigits-append (x ∷ xs) ys (lo, hi, h) k = (lo, hi, AllDigits-append xs ys h k)

decimal-AllDigits : (f n : ℕ) → AllDigits (decimal f n)
unfolding decimal AllDigits
decimal-AllDigits zero n = omega arith
decimal-AllDigits (suc f) n = elim (Bool-cases (ltb n 10)) [
  | inl e ↦ rw e (omega arith, omega (arith, ltb→lt _ _ e), omega arith)
  | inr e ↦ rw e (
      AllDigits-append (decimal f (n / 10)) _ (decimal-AllDigits f (n / 10))
        (omega arith, omega arith, omega arith))
]

digits_value-append :
    (v : ℕ) (xs ys : List ℕ)
    → AllDigits xs
    → digits_value v (xs ++ ys) ≡ digits_value (digits_value v xs) ys
unfolding digits_value AllDigits
digits_value-append v [] ys h = refl
digits_value-append v (c ∷ cs) ys (lo, hi, h) =
    rw (le→leb 48 c lo, le→leb c 57 hi) (digits_value-append (v * 10 + (c - 48)) cs ys h)

one_digit : (v d : ℕ) → d < 10 → digits_value v ((48 + d) ∷ []) ≡ v * 10 + d
unfolding digits_value
one_digit v d h =
    rw (le→leb 48 (48 + d) (omega arith), le→leb (48 + d) 57 (omega arith)) (omega arith)

digits_value-decimal : (f n : ℕ) → n < 10 ^ f → digits_value 0 (decimal f n) ≡ n
unfolding decimal
digits_value-decimal zero n h = unfold digits_value in omega arith
digits_value-decimal (suc f) n h = elim (Bool-cases (ltb n 10)) [
  | inl e ↦ rw e (one_digit 0 n (ltb→lt _ _ e) ∙ omega arith)
  | inr e ↦ rw e (
      digits_value-append 0 (decimal f (n / 10)) ((48 + n % 10) ∷ []) (decimal-AllDigits f (n / 10))
      ∙ ap (λ v. digits_value v ((48 + n % 10) ∷ []))
          (digits_value-decimal f (n / 10) (omega arith))
      ∙ one_digit (n / 10) (n % 10) (omega arith)
      ∙ omega arith)
]

-- A number in decimal starts with a digit.
decimal-cons : (f n : ℕ) → (c : ℕ) × (cs : List ℕ) × (decimal (suc f) n ≡ c ∷ cs)
unfolding decimal
decimal-cons zero n = elim (Bool-cases (ltb n 10)) [
  | inl e ↦ rw e (48 + n, [], refl)
  | inr e ↦ rw e (48 + n % 10, [], refl)
]
decimal-cons (suc f) n = elim (Bool-cases (ltb n 10)) [
  | inl e ↦ rw e (48 + n, [], refl)
  | inr e ↦
      let (c, cs, k) = decimal-cons f (n / 10) in
      rw e (c, cs ++ ((48 + n % 10) ∷ []), ap (λ xs. xs ++ ((48 + n % 10) ∷ [])) k)
]

atoi-AllDigits :
    (c : ℕ) (cs : List ℕ) → AllDigits (c ∷ cs) → atoi (c ∷ cs) ≡ digits_value 0 (c ∷ cs) % 2 ^ 32
unfolding atoi AllDigits
atoi-AllDigits c cs (lo, hi, h) = ground arith

until_cr-AllDigits : (xs ys : List ℕ) → AllDigits xs → until_cr (xs ++ 13 ∷ ys) ≡ xs
unfolding until_cr AllDigits
until_cr-AllDigits [] ys h = refl
until_cr-AllDigits (x ∷ xs) ys (lo, hi, h) =
    rw (ne_== x 13 (λ e. absurd (omega arith))) (ap (◌∷◌ x) (until_cr-AllDigits xs ys h))

-- A line "Content-Length: n" as `SetBody` writes it.
abbrev pub length_line : ℕ → List ℕ
length_line n = content_length_text ++ decimal int_digits n ++ crlf

atoi-decimal : (n : ℕ) → n < 2 ^ 31 → atoi (decimal int_digits n) ≡ n
unfolding AllDigits
atoi-decimal n small =
    let (c, cs, e) = decimal-cons 9 n in
    let digits = subst AllDigits e (unfold AllDigits in decimal-AllDigits int_digits n) in
    let value = digits_value-decimal int_digits n (omega arith) in
    rw e (atoi-AllDigits c cs digits)
    ∙ ap (λ xs. digits_value 0 xs % 2 ^ 32) (sym e)
    ∙ ap (λ v. v % 2 ^ 32) value
    ∙ omega arith

-- The length below 2 ^ 31 that SetBody writes in a Content-Length line is the size that
-- _CheckContentLen reads from that line.
pub line_size-length_line : (n : ℕ) → n < 2 ^ 31 → line_size (length_line n) ≡ some (some n)
unfolding line_size match_constr
line_size-length_line n small =
    let text = decimal int_digits n in
    let (c, cs, e) = decimal-cons 9 n in
    let short : ltb (length (length_line n)) 18 ≡ false =
      le→ltb _ _ (omega (arith, ap length e, length-append text crlf)) in
    let digits : until_cr (text ++ crlf) ≡ text =
      until_cr-AllDigits text (10 ∷ []) (decimal-AllDigits int_digits n) in
    let fits : ltb 10 (length text) ≡ false = le→ltb _ _ (length-decimal int_digits n) in
    rw (line_size, short, digits, fits, atoi-decimal n small) refl
