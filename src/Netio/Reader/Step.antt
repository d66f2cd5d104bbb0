-- ===== src/Netio/Reader/Step.antt =====
-- The two halves of the loop of `_CutMsgPack`, against the stream: `xs` is what earlier chunks
-- left, `buf` the chunk, `all` both.
use netlib.Common.{
  ℕ, ◌+◌, ◌-◌, ◌%◌, ◌^◌, ◌≤◌, ◌<◌, ◌≡◌, refl, sym, ap, ◌∙◌, ◌⊎◌, inl, inr, List, [], ◌++◌,
  append_assoc, append-nil, arith, ltb, Bool-cases, ltb→lt, ltb→le, lt→ltb, le→ltb, lt→leb,
  pos-ne-zero, length, take, drop, length-append, length-take, length-drop, take-append-drop,
  drop-append, take-append_past, drop-append_past, drop-drop, drop-length_append,
}
use native.Mathlib.Decide.{dec_lt}
use netlib.Base.Buffer.{Buffer, contents, clear, write, read, length_of}
use netlib.Base.Buffer.Valid.{
  IsValid, length-contents, length_of-lem, write-Wrote, contents-write, clear-IsValid, offset-read,
}
use netlib.Base.Buffer.Strings.{read-front}
use netlib.Netio.Header.{
  Header, hdrlen, n2h, header_value, announced, announced-front, announced-append,
}
use netlib.Netio.Reader.{
  Reader, pack_size, read_size, Headed, wait, bad, go, read_header, load_header, cut_header, Bodied,
  partial, notify, cut_body,
}

-- A buffer that holds `xs` from offset `o` on, and nothing behind.
pub record Buffered (b : Buffer) (o : ℕ) (xs : List ℕ) : Type 0 where
  pub valid : IsValid b
  pub at : b.offset ≡ o
  pub holds : contents b ≡ xs

-- The reader state that stands for `xs`, an incomplete message at the end of the stream.
pub data Holds (r : Reader) (xs : List ℕ) : Type 0 where
  between : Buffered r.msgbuffer 0 xs → r.curheader.size ≡ 0 → length xs < hdrlen → Holds r xs
  inside :
      Buffered r.msgbuffer hdrlen (drop hdrlen xs)
      → hdrlen ≤ length xs
      → r.curheader.size ≡ announced xs
      → 0 < announced xs
      → announced xs ≤ pack_size
      → length xs < hdrlen + announced xs
      → Holds r xs

-- The state between the halves: the header is read, `body` of the message is buffered.
pub record Loaded (all buf : List ℕ) (r : Reader) (rest : List ℕ) : Type 0 where
  pub body : List ℕ
  pub buffered : Buffered r.msgbuffer hdrlen body
  pub stream : body ++ rest ≡ drop hdrlen all
  pub long : hdrlen ≤ length all
  pub size_read : r.curheader.size ≡ announced all
  pub small : announced all ≤ pack_size
  pub below : length body ≤ announced all
  pub shrinks : length rest ≤ length buf
  pub progress : (length rest < length buf) ⊎ (length body < announced all)

abbrev pub HeadSpec : List ℕ → List ℕ → Headed → Type 0
HeadSpec all buf (wait r) = Holds r all × (length all < hdrlen)
HeadSpec all buf (bad r) = (hdrlen ≤ length all) × (pack_size < announced all)
HeadSpec all buf (go r rest) = Loaded all buf r rest

length_of-Buffered : {b : Buffer} {o : ℕ} {xs : List ℕ} → Buffered b o xs → length_of b ≡ length xs
length_of-Buffered w = length_of-lem w.valid ∙ sym (length-contents w.valid) ∙ ap length w.holds

pub write-Buffered :
    {b : Buffer} {o : ℕ} (xs bs : List ℕ)
    → Buffered b o xs
    → o + length xs + length bs + 1024 < 2 ^ 32
    → Buffered (write b bs) o (xs ++ bs)
write-Buffered {b} xs bs w h =
    let room : b.pos + length bs + 1024 < 2 ^ 32 =
      omega (arith, length-contents w.valid, ap length w.holds, w.at, w.valid.unread) in
    let wr = write-Wrote bs w.valid room in
    record {
      valid = wr.valid;
      at = wr.offset_kept ∙ w.at;
      holds = contents-write bs w.valid room ∙ ap (λ cs. cs ++ bs) w.holds;
    }

pub clear-Buffered : {b : Buffer} → IsValid b → Buffered (clear b) 0 []
unfolding clear
clear-Buffered v = record { valid = unfold clear in clear-IsValid v; at = refl; holds = refl }

-- A whole header in the buffer is loaded, and its size checked.
load_header-HeadSpec :
    (b : Buffer) (h : Header) (hdr rest all buf : List ℕ)
    → Buffered b 0 hdr
    → length hdr ≡ hdrlen
    → hdr ++ rest ≡ all
    → length rest < length buf
    → HeadSpec all buf (load_header (record { msgbuffer = b; curheader = h }) rest)
unfolding load_header read_header
load_header-HeadSpec b h hdr rest all buf w l e s =
    let (got, left, _, ok) = read-front hdr [] w.valid (w.holds ∙ sym (append-nil hdr)) (sym l) in
    let size : (n2h (header_value hdr)).size ≡ announced all =
      sym (announced-front hdr rest l) ∙ ap announced e in
    let moved : (read b hdrlen).0.offset ≡ hdrlen =
      offset-read hdrlen w.valid (omega (arith, ap length w.holds)) ∙ ap (λ o. o + hdrlen) w.at in
    let len = ap length e in
    elim (Bool-cases (ltb pack_size (n2h (header_value hdr)).size)) [
      | inl big ↦
          rw (got, read_header, big)
            (omega (arith, len, length-append hdr rest), omega (arith, size, ltb→lt _ _ big))
      | inr ok_size ↦
          rw (got, read_header, ok_size)
            (record {
              body = [];
              buffered = record { valid = ok; at = moved; holds = left };
              stream = rw (← e) (sym (rw l at (drop-length_append hdr rest)));
              long = omega (arith, len, length-append hdr rest);
              size_read = size;
              small = omega (arith, size, ltb→le _ _ ok_size);
              below = omega arith;
              shrinks = omega arith;
              progress = inl s;
            })
    ]

-- The first half of the loop's body.
pub cut_header-HeadSpec :
    (r : Reader) (xs buf : List ℕ)
    → Holds r xs
    → length buf ≤ read_size
    → HeadSpec (xs ++ buf) buf (cut_header r buf)
unfolding cut_header
cut_header-HeadSpec r xs buf (between w z short) h =
    let d = length_of-Buffered w in
    let n : (length buf + length xs) % 2 ^ 32 ≡ length buf + length xs = omega arith in
    let lack : (hdrlen + 2 ^ 32 - length xs) % 2 ^ 32 ≡ hdrlen - length xs = omega arith in
    elim (dec_lt (length buf + length xs) hdrlen) [
      | yes p ↦
          rw (z, d, n, lt→ltb _ _ p)
            (
              between (write-Buffered xs buf w (omega arith)) refl
                  (omega (arith, length-append xs buf)),
              omega (arith, length-append xs buf),
            )
      | no p ↦
          let k = hdrlen - length xs in
          let len = length-take k buf in
          rw
            (
              z,
              d,
              n,
              le→ltb (length buf + length xs) hdrlen (omega arith),
              lt→leb hdrlen (length xs) short,
              lack,
            )
            (load_header-HeadSpec _ _ (xs ++ take k buf) (drop k buf) (xs ++ buf) buf
              (write-Buffered xs (take k buf) w (omega (arith, len)))
              (omega (arith, length-append xs (take k buf), len))
              (append_assoc xs (take k buf) (drop k buf) ∙ ap (◌++◌ xs) (take-append-drop k buf))
              (omega (arith, length-drop k buf)))
    ]
cut_header-HeadSpec r xs buf (inside w long size pos small short) h =
    let same = announced-append xs buf long in
    let nonzero = pos-ne-zero r.curheader.size (omega arith) in
    rw nonzero (record {
      body = drop hdrlen xs;
      buffered = w;
      stream = sym (drop-append hdrlen xs buf long);
      long = omega (arith, length-append xs buf);
      size_read = size ∙ sym same;
      small = omega (arith, same);
      below = omega (arith, same, length-drop hdrlen xs);
      shrinks = omega arith;
      progress = inr (omega (arith, same, length-drop hdrlen xs));
    })

-- What the second half makes of the stream: nothing yet, or its first message.
abbrev pub BodySpec : List ℕ → List ℕ → Bodied → Type 0
BodySpec all buf (partial r) = Holds r all
BodySpec all buf (notify r rest m) =
    Holds r []
    × (announced all ≤ pack_size)
    × (hdrlen + announced all ≤ length all)
    × (m ≡ take (announced all) (drop hdrlen all))
    × (rest ≡ drop (hdrlen + announced all) all)
    × (length rest < length buf)

-- The second half of the loop's body.
pub cut_body-BodySpec :
    (r : Reader) (all buf rest : List ℕ)
    → Loaded all buf r rest
    → length buf ≤ read_size
    → BodySpec all buf (cut_body r rest)
unfolding cut_body
cut_body-BodySpec r all buf rest ld h =
    let open_n = announced all in
    let d = length_of-Buffered ld.buffered in
    let n : (length rest + length ld.body) % 2 ^ 32 ≡ length rest + length ld.body = omega arith in
    let lens : length ld.body + length rest ≡ length all - hdrlen =
      omega (arith, length-append ld.body rest, ap length ld.stream, length-drop hdrlen all) in
    let k = open_n - length ld.body in
    let lack : (open_n + 2 ^ 32 - length ld.body) % 2 ^ 32 ≡ k = omega arith in
    elim (dec_lt (length rest + length ld.body) open_n) [
      | yes p ↦
          rw (d, n, ld.size_read, lt→ltb _ _ p)
            (inside (rw ld.stream at (write-Buffered ld.body rest ld.buffered (omega arith)))
              ld.long refl (omega arith) ld.small (omega arith))
      | no p ↦
          let w =
            write-Buffered ld.body (take k rest) ld.buffered (omega (arith, length-take k rest)) in
          rw (d, n, ld.size_read, le→ltb (length rest + length ld.body) open_n (omega arith), lack)
            (
              between (clear-Buffered w.valid) refl (omega arith),
              ld.small,
              omega arith,
              w.holds
                  ∙ sym (take-append_past open_n ld.body rest ld.below)
                  ∙ ap (take open_n) ld.stream,
              sym (drop-append_past open_n ld.body rest ld.below)
                  ∙ ap (drop open_n) ld.stream
                  ∙ drop-drop open_n hdrlen all,
              omega (arith, length-drop k rest),
            )
    ]
