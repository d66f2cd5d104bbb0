-- ===== src/Base/Buffer/Pack.antt =====
-- `operator<<` and `operator>>` of base/buffer.hpp used as a pair: a list of strings is written to
-- one buffer and read back from it.
use netlib.Common.{
  flatten, drop-append, ℕ, zero, suc, ◌+◌, ◌^◌, ◌<◌, ◌≡◌, refl, sym, ap, ◌∙◌, Option, none, some,
  List, [], ◌∷◌, ◌++◌, append_assoc, append-nil, arith, length, length-append, suc-ne-zero,
  le_bytes, length-le_bytes,
}
use netlib.Base.Buffer.{write, written, Buffer, new, write_string, read_string, contents}
use netlib.Base.Buffer.Valid.{Wrote, length-written, write-Wrote, IsValid, new-IsValid}
use netlib.Base.Buffer.Strings.{
  IsNonzero, c_string-IsNonzero, encoded, decoded, contents-write_string, write_string-IsValid,
  pos-write_string, read_string-front,
}

-- `buffer << s1 << s2 ...`
abbrev pub write_strings : Buffer → List (List ℕ) → Buffer
write_strings b [] = b
write_strings b (s ∷ ss) = write_strings (write_string b s) ss

-- `buffer >> s1 >> s2 ...`, into strings that were empty.
abbrev pub read_strings : ℕ → Buffer → Option (List (List ℕ))
read_strings zero b = some []
read_strings (suc n) b = elim (read_string b []).1 [
  | none ↦ none
  | some s ↦ elim (read_strings n (read_string b []).0) [ none ↦ none | some ss ↦ some (s ∷ ss) ]
]

abbrev pub encoded_all : List (List ℕ) → List ℕ
encoded_all [] = []
encoded_all (s ∷ ss) = encoded s ++ encoded_all ss

-- No string holds a NUL.
abbrev pub AllNonzero : List (List ℕ) → Type 0
AllNonzero [] = Unit {0}
AllNonzero (s ∷ ss) = IsNonzero s × AllNonzero ss

length-encoded : (s : List ℕ) → length (encoded s) ≡ 4 + length s
length-encoded s = omega (arith, length-append (le_bytes (length s)) s, length-le_bytes (length s))

contents-write_strings :
    (b : Buffer) (ss : List (List ℕ))
    → IsValid b
    → b.pos + length (encoded_all ss) + 2 ^ 12 < 2 ^ 32
    → (contents (write_strings b ss) ≡ contents b ++ encoded_all ss) × IsValid (write_strings b ss)
contents-write_strings b [] v room = (sym (append-nil (contents b)), v)
contents-write_strings b (s ∷ ss) v room =
    let fits : b.pos + length s + 2 ^ 12 < 2 ^ 32 =
      omega (arith, length-append (encoded s) (encoded_all ss), length-encoded s) in
    let (bytes, ok) = contents-write_strings (write_string b s) ss (write_string-IsValid s v fits) (
      omega (
        arith,
        length-append (encoded s) (encoded_all ss),
        length-encoded s,
        pos-write_string s v fits,
      )) in
    (
      bytes
          ∙ ap (λ cs. cs ++ encoded_all ss) (contents-write_string s v fits)
          ∙ append_assoc (contents b) (encoded s) (encoded_all ss),
      ok,
    )

decoded-IsNonzero : (s : List ℕ) → IsNonzero s → decoded s [] ≡ s
decoded-IsNonzero [] h = refl
decoded-IsNonzero (c ∷ cs) h = rw (suc-ne-zero (length cs)) (c_string-IsNonzero (c ∷ cs) h)

read_strings-contents :
    (b : Buffer) (ss : List (List ℕ))
    → IsValid b
    → AllNonzero ss
    → length (contents b) < 2 ^ 32
    → contents b ≡ encoded_all ss
    → read_strings (length ss) b ≡ some ss
read_strings-contents b [] v h small e = refl
read_strings-contents b (s ∷ ss) v (h, hs) small e =
    let len = length-append (encoded s) (encoded_all ss) in
    let (got, left, ok) =
      read_string-front s [] (encoded_all ss) v (omega (arith, len, length-encoded s, ap length e))
        e in
    let rest =
      read_strings-contents (read_string b []).0 ss ok hs
        (omega (arith, len, ap length e, ap length left)) left in
    rw (read_strings, got, rest, decoded-IsNonzero s h) refl

-- Strings without a NUL, written one after the other to a fresh buffer, are read back from it as
-- they were, if the bytes written for them, four and its length for each, and 4096 more are less
-- than 2 ^ 32.
pub read_strings-write_strings :
    (ss : List (List ℕ))
    → AllNonzero ss
    → length (encoded_all ss) + 2 ^ 12 < 2 ^ 32
    → read_strings (length ss) (write_strings new ss) ≡ some ss
unfolding new
read_strings-write_strings ss h small =
    let (bytes, ok) = contents-write_strings new ss new-IsValid (omega arith) in
    read_strings-contents (write_strings new ss) ss ok h (omega (arith, ap length bytes)) bytes

-- Calls of `Write` one after the other.
abbrev pub write_each : Buffer → List (List ℕ) → Buffer
write_each b [] = b
write_each b (t ∷ ts) = write_each (write b t) ts

-- Texts written one after the other are written as one.
pub write_each-Wrote :
    (b : Buffer) (ts : List (List ℕ))
    → IsValid b
    → b.pos + length (flatten ts) + 1024 < 2 ^ 32
    → Wrote b (flatten ts) (write_each b ts)
write_each-Wrote b [] v room = record {
  valid = v;
  bytes = sym (append-nil (written b));
  pos_moved = omega arith;
  offset_kept = refl;
}
write_each-Wrote b (t ∷ ts) v room =
    let len = length-append t (flatten ts) in
    let w = write-Wrote t v (omega (arith, len)) in
    let u = write_each-Wrote (write b t) ts w.valid (omega (arith, len, w.pos_moved)) in
    record {
      valid = u.valid;
      bytes =
          u.bytes ∙ ap (λ bs. bs ++ flatten ts) w.bytes ∙ append_assoc (written b) t (flatten ts);
      pos_moved = omega (arith, len, w.pos_moved, u.pos_moved);
      offset_kept = u.offset_kept ∙ w.offset_kept;
    }

-- What a step that wrote some bytes leaves to read.
pub contents-Wrote :
    {b b' : Buffer} {bs : List ℕ} → IsValid b → Wrote b bs b' → contents b' ≡ contents b ++ bs
contents-Wrote {b} {b'} {bs} v w =
    rw (w.offset_kept, w.bytes)
      (drop-append b.offset (written b) bs (omega (arith, length-written v)))
