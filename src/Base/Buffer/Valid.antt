-- ===== src/Base/Buffer/Valid.antt =====
-- The invariant of base/buffer.hpp, what each operation does to the bytes, and its frame.
use netlib.Common.{
  ℕ, ◌+◌, ◌-◌, ◌%◌, ◌^◌, ◌≤◌, ◌<◌, ◌≡◌, refl, sym, ap, ◌∙◌, inl, inr, false, none, some, List, [],
  ◌++◌, arith, ltb, Bool-cases, ltb→le, lt→ltb, le→ltb, length, take, drop, memcpy, length-memcpy,
  take-memcpy, length-take, length-drop, take-append, drop-append, take-append-drop, drop-drop,
  length-replicate,
}
use netlib.Base.Buffer.{
  Buffer, malloc, new, clear, cut_data, length_of, grow, write, read, written, contents,
}

-- A block of `size` bytes, the first `pos` of them written, `offset` of those read.
pub record IsValid (b : Buffer) : Type 0 where
  pub unread : b.offset ≤ b.pos
  pub fits : b.pos ≤ b.size
  pub block : length b.mem ≡ b.size
  pub word : b.size < 2 ^ 32

pub new-IsValid : IsValid new
unfolding new
new-IsValid = record {
  unread = omega arith;
  fits = omega arith;
  block = length-replicate {A = ℕ} 1024 0;
  word = omega arith;
}

pub clear-IsValid : {b : Buffer} → IsValid b → IsValid (clear b)
unfolding clear
clear-IsValid v = omega arith

pub length_of-lem : {b : Buffer} → IsValid b → length_of b ≡ b.pos - b.offset
unfolding length_of
length_of-lem v = omega arith

pub length-written : {b : Buffer} → IsValid b → length (written b) ≡ b.pos
length-written {b} v = omega (arith, length-take b.pos b.mem)

-- What one `Write` of `bs` has done to a buffer.
pub record Wrote (b : Buffer) (bs : List ℕ) (b' : Buffer) : Type 0 where
  pub valid : IsValid b'
  pub bytes : written b' ≡ written b ++ bs
  pub pos_moved : b'.pos ≡ b.pos + length bs
  pub offset_kept : b'.offset ≡ b.offset

module _ {b : Buffer} (bs : List ℕ) (v : IsValid b) (room : b.pos + length bs + 1024 < 2 ^ 32) where
  -- The second `memcpy` of `Write`, into a block with room.
  fill-Wrote :
      b.pos + length bs ≤ b.size
      → Wrote b bs (record b { mem = memcpy b.mem b.pos bs; pos = (b.pos + length bs) % 2 ^ 32 })
  fill-Wrote h =
      let e : (b.pos + length bs) % 2 ^ 32 ≡ b.pos + length bs = omega arith in
      record {
        valid = ground (arith, length-memcpy b.mem b.pos bs, v);
        bytes = rw e (take-memcpy b.mem b.pos bs (omega arith));
        pos_moved = e;
        offset_kept = refl;
      }

  grow-fits : b.pos + length bs ≤ (grow b (length bs)).size
  unfolding grow
  grow-fits = omega arith

  length-grow : length (grow b (length bs)).mem ≡ (grow b (length bs)).size
  unfolding grow malloc
  length-grow = length-memcpy _ 0 (take b.pos b.mem) ∙ length-replicate {A = ℕ} _ 0

  written-grow : written (grow b (length bs)) ≡ written b
  unfolding grow malloc
  written-grow =
      let e : 0 + length (written b) ≡ b.pos = omega (arith, length-written v) in
      rw e at (
        take-memcpy (malloc (grow b (length bs)).size) 0 (written b) (
          omega (
            arith,
            length-written v,
            grow-fits,
            length-replicate {A = ℕ} (grow b (length bs)).size 0,
          )))

  grow-IsValid : IsValid (grow b (length bs))
  grow-IsValid = record {
    unread = unfold grow in v.unread;
    fits = unfold grow in omega arith;
    block = length-grow;
    word = unfold grow in omega arith;
  }

module _ {b : Buffer} (bs : List ℕ) (v : IsValid b) (room : b.pos + length bs + 1024 < 2 ^ 32) where
  -- On a valid buffer with room below 2 ^ 32, Write appends the bytes, whether it reallocates or
  -- not, moves the write position by their number, leaves the read offset, and keeps the buffer
  -- valid.
  pub write-Wrote : Wrote b bs (write b bs)
  unfolding write grow
  write-Wrote = elim (Bool-cases (ltb b.size ((b.pos + length bs) % 2 ^ 32))) [
    | inl more ↦
        rw more (grown (fill-Wrote bs (grow-IsValid bs v room) roomy (grow-fits bs v room)))
    | inr fits ↦ rw fits (fill-Wrote bs v room (omega (arith, ltb→le _ _ fits)))
  ]
    where
      roomy : (grow b (length bs)).pos + length bs + 1024 < 2 ^ 32
      roomy = room

      grown : {b' : Buffer} → Wrote (grow b (length bs)) bs b' → Wrote b bs b'
      grown w = record {
        valid = w.valid;
        bytes = w.bytes ∙ ap (λ ws. ws ++ bs) (written-grow bs v room);
        pos_moved = w.pos_moved;
        offset_kept = w.offset_kept;
      }

  pub contents-write : contents (write b bs) ≡ contents b ++ bs
  contents-write =
      let w = write-Wrote in
      rw (w.offset_kept, w.bytes)
        (drop-append b.offset (written b) bs (omega (arith, length-written v)))

  pub written-write : written (write b bs) ≡ written b ++ bs
  written-write = write-Wrote.bytes

  pub write-IsValid : IsValid (write b bs)
  write-IsValid = write-Wrote.valid

pub written-clear : (b : Buffer) → written (clear b) ≡ []
unfolding clear
written-clear b = refl

pub length-contents : {b : Buffer} → IsValid b → length (contents b) ≡ b.pos - b.offset
length-contents {b} v = omega (arith, length-drop b.offset (written b), length-written v)

-- The unread bytes lie in the block from `offset` on.
contents-take :
    {b : Buffer} (n : ℕ)
    → IsValid b
    → n ≤ b.pos - b.offset
    → take n (drop b.offset b.mem) ≡ take n (contents b)
contents-take {b} n v h =
    let o = b.offset in
    let old = written b in
    let rest = drop b.pos b.mem in
    sym (ap (λ m. take n (drop o m)) (take-append-drop b.pos b.mem))
    ∙ ap (take n) (drop-append o old rest (omega (arith, length-written v)))
    ∙ take-append n (drop o old) rest (omega (arith, length-contents v))

module _ {b : Buffer} (n : ℕ) (v : IsValid b) where
  -- The offset after `n` bytes that are there.
  moved : n ≤ length (contents b) → (b.offset + n) % 2 ^ 32 ≡ b.offset + n
  moved h = omega (arith, length-contents v)

  within : n ≤ length (contents b) → ltb b.pos ((b.offset + n) % 2 ^ 32) ≡ false
  within h = le→ltb _ _ (omega (arith, length-contents v))

  contents-moved : drop (b.offset + n) (written b) ≡ drop n (contents b)
  contents-moved = sym (drop-drop n b.offset (written b))

  -- On a valid buffer, Read of no more than is unread yields the first unread bytes, leaves the
  -- rest unread and the written bytes as they were, and keeps the buffer valid.
  pub read-enough :
      n ≤ length (contents b)
      → ((read b n).1 ≡ some (take n (contents b)))
        × (contents (read b n).0 ≡ drop n (contents b))
        × (written (read b n).0 ≡ written b)
        × IsValid (read b n).0
  unfolding read
  read-enough h =
      rw (within h, moved h)
        (
          ap some (contents-take n v (omega (arith, length-contents v))),
          contents-moved,
          refl,
          omega (arith, length-contents v),
        )

  pub offset-read : n ≤ length (contents b) → (read b n).0.offset ≡ b.offset + n
  unfolding read
  offset-read h = rw (within h, moved h)

  -- `Read` of more than that changes nothing.
  pub read-short : length (contents b) < n → b.offset + n < 2 ^ 32 → read b n ≡ (b, none)
  unfolding read
  read-short h k = rw (lt→ltb b.pos ((b.offset + n) % 2 ^ 32) (omega (arith, length-contents v)))

  -- `CutData` of no more than is unread drops the first bytes.
  pub cut_data-enough :
      n ≤ length (contents b)
      → (contents (cut_data b n) ≡ drop n (contents b)) × IsValid (cut_data b n)
  unfolding cut_data
  cut_data-enough h = rw (within h, moved h) (contents-moved, omega (arith, length-contents v))

  -- CutData of a negative length takes the read offset back by that many bytes, as long as it does
  -- not pass the start.
  pub cut_data-back :
      n ≤ b.offset → 0 < n → cut_data b (2 ^ 32 - n) ≡ record b { offset = b.offset - n }
  unfolding cut_data
  cut_data-back h p =
      let e : (b.offset + (2 ^ 32 - n)) % 2 ^ 32 ≡ b.offset - n = omega arith in
      rw (e, le→ltb b.pos (b.offset - n) (omega arith))
