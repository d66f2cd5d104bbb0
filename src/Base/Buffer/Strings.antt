-- ===== src/Base/Buffer/Strings.antt =====
-- Words and strings through base/buffer.hpp: what `Write` of a value puts in and `Read` gets out.
use netlib.Common.{
  ℕ, ◌+◌, ◌%◌, ◌^◌, ◌<◌, ◌≡◌, refl, sym, ap, ◌∙◌, some, List, [], ◌∷◌, ◌++◌, append_assoc, arith,
  ◌==◌, if◌then◌else◌, length, length-append, take-length_append, drop-length_append, suc-ne-zero,
  take, take-all, le_bytes, length-le_bytes, le_value-le_bytes, ◌≢◌,
}
use netlib.Base.Buffer.{
  Buffer, write, write_u32, write_string, read, read_u32, read_string, c_string, contents, written,
}
use netlib.Base.Buffer.Valid.{
  IsValid, Wrote, write-Wrote, contents-write, write-IsValid, read-enough,
}

-- `Read` of exactly the bytes at the front.
pub read-front :
    {b : Buffer} (bs rest : List ℕ) {n : ℕ}
    → IsValid b
    → contents b ≡ bs ++ rest
    → n ≡ length bs
    → ((read b n).1 ≡ some bs)
      × (contents (read b n).0 ≡ rest)
      × (written (read b n).0 ≡ written b)
      × IsValid (read b n).0
read-front {b} bs rest {n} v e h =
    let (got, left, same, ok) =
      read-enough n v (omega (arith, ap length e, length-append bs rest)) in
    (
      got ∙ ap some (rw (e, h) (take-length_append bs rest)),
      left ∙ rw (e, h) (drop-length_append bs rest),
      same,
      ok,
    )

pub read_u32-front :
    {b : Buffer} (v old : ℕ) (rest : List ℕ)
    → IsValid b
    → v < 2 ^ 32
    → contents b ≡ le_bytes v ++ rest
    → ((read_u32 b old).1 ≡ v)
      × (contents (read_u32 b old).0 ≡ rest)
      × (written (read_u32 b old).0 ≡ written b)
      × IsValid (read_u32 b old).0
unfolding read_u32
read_u32-front v old rest ok h e =
    let (got, left, same, ok') = read-front (le_bytes v) rest ok e (sym (length-le_bytes v)) in
    (rw (got, read_u32) (le_value-le_bytes v h), left, same, ok')

abbrev pub IsNonzero : List ℕ → Type 0
IsNonzero [] = Unit {0}
IsNonzero (c ∷ cs) = (c ≢ 0) × IsNonzero cs

pub c_string-IsNonzero : (s : List ℕ) → IsNonzero s → c_string s ≡ s
unfolding c_string
c_string-IsNonzero [] h = refl
c_string-IsNonzero (c ∷ cs) h = ground (arith, c_string-IsNonzero cs h.1)

-- The bytes of a string in a buffer: its length, then its characters.
abbrev pub encoded : List ℕ → List ℕ
encoded s = le_bytes (length s) ++ s

module _ {b : Buffer} (s : List ℕ) (v : IsValid b) (room : b.pos + length s + 2 ^ 12 < 2 ^ 32) where
  header-Wrote : Wrote b (le_bytes (length s)) (write_u32 b (length s % 2 ^ 32))
  unfolding write_u32
  header-Wrote =
      let e : length s % 2 ^ 32 ≡ length s = omega arith in
      rw e (write-Wrote (le_bytes (length s)) v (omega (arith, length-le_bytes (length s))))

  contents-header : contents (write_u32 b (length s % 2 ^ 32)) ≡ contents b ++ le_bytes (length s)
  unfolding write_u32
  contents-header =
      let e : length s % 2 ^ 32 ≡ length s = omega arith in
      rw e (contents-write (le_bytes (length s)) v (omega (arith, length-le_bytes (length s))))

  body_room : (write_u32 b (length s % 2 ^ 32)).pos + length s + 1024 < 2 ^ 32
  body_room = omega (arith, header-Wrote.pos_moved, length-le_bytes (length s))

  whole : take (length s % 2 ^ 32) s ≡ s
  whole = take-all (length s % 2 ^ 32) s (omega arith)

  pub contents-write_string : contents (write_string b s) ≡ contents b ++ encoded s
  unfolding write_string
  contents-write_string =
      ap (λ cs. contents (write (write_u32 b (length s % 2 ^ 32)) cs)) whole
      ∙ contents-write s header-Wrote.valid body_room
      ∙ ap (λ cs. cs ++ s) contents-header
      ∙ append_assoc (contents b) (le_bytes (length s)) s

  pub write_string-IsValid : IsValid (write_string b s)
  unfolding write_string
  write_string-IsValid = rw whole (write-IsValid s header-Wrote.valid body_room)

  pub pos-write_string : (write_string b s).pos ≡ b.pos + length (encoded s)
  unfolding write_string
  pos-write_string =
      let w = write-Wrote s header-Wrote.valid body_room in
      rw whole
        (omega (arith, w.pos_moved, header-Wrote.pos_moved, length-append (le_bytes (length s)) s))

-- What `Read` makes of an encoded string: the characters up to the first NUL. An empty one leaves
-- the destination as it was.
abbrev pub decoded : List ℕ → List ℕ → List ℕ
decoded s old = if length s == 0 then old else c_string s

pub read_string-front :
    {b : Buffer} (s old rest : List ℕ)
    → IsValid b
    → length s < 2 ^ 32
    → contents b ≡ encoded s ++ rest
    → ((read_string b old).1 ≡ some (decoded s old))
      × (contents (read_string b old).0 ≡ rest)
      × IsValid (read_string b old).0
unfolding read_string
read_string-front {b} [] old rest v h e =
    let (got, left, same, ok) =
      read_u32-front 0 0 rest v h (e ∙ append_assoc (le_bytes 0) [] rest) in
    rw (got, read_string) (refl, left, ok)
read_string-front {b} (c ∷ cs) old rest v h e =
    let s = c ∷ cs in
    let (got, left, same, ok) =
      read_u32-front (length s) 0 (s ++ rest) v h (e ∙ append_assoc (le_bytes (length s)) s rest) in
    let (got', left', same', ok') =
      read-front {b = (read_u32 b 0).0} s rest {n = length s} ok left refl in
    rw (got, read_string) (rw (suc-ne-zero (length cs), got') (refl, left', ok'))
