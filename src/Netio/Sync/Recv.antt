-- ===== src/Netio/Sync/Recv.antt =====
-- `SyncConnector::Recv` (netio/tconnector_impl.hpp) on a message that arrives in chunks.
use netlib.Common.{
  ℕ, ◌+◌, ◌≤◌, ◌<◌, ◌≡◌, ◌≢◌, refl, sym, ap, subst, ◌∙◌, Option, some, List, [], ◌∷◌, ◌++◌,
  append_assoc, append-nil, arith, ltb, length, take, drop, if◌then◌else◌, length-append,
  length-memcpy, memcpy, take-memcpy, flatten, drop-length_append, take-all, length-drop,
}
use netlib.Base.Buffer.{contents}
use netlib.Base.Buffer.Valid.{IsValid}
use netlib.Netio.Header.{
  hdrlen, announced, announced-append, sent_header, length-sent_header, announced-sent_header,
}
use netlib.Netio.Reader.{Reader, read_size}
use netlib.Netio.Reader.Frames.{frame}
use netlib.Netio.Reader.Step.{Holds, between, inside}
use netlib.Netio.Writer.{start}
use netlib.Netio.Sync.{
  SyncConnector, Packed, more, dropped, reply, cut_pack, Outcome, ok, failed, recv_loop, recv,
  received, chunk_of, cut_or, max_msg, cleared, is_started,
}
use netlib.Netio.Sync.Cut.{PackSpec, cut_pack-PackSpec}

-- Chunks as `RecvSome` gives them.
abbrev pub AllChunks : List (List ℕ) → Type 0
AllChunks [] = Unit
AllChunks (c ∷ cs) = (0 < length c) × (length c ≤ read_size) × AllChunks cs

abbrev pub answers : List (List ℕ) → List (Option (List ℕ))
answers [] = []
answers (c ∷ cs) = some c ∷ answers cs

-- Between two messages, with nothing left of the last chunk.
pub record Idle (c : SyncConnector) : Type 0 where
  pub started : c.flag ≡ start
  pub empty : Holds (cleared c).reader []
  pub used : c.readsize ≡ 0
  pub block : length c.readbuf ≡ read_size

-- What a `Recv` that yields `m` leaves, when the wire was `w`.
pub record Replied (m w : List ℕ) (e : Outcome) : Type 0 where
  pub after : SyncConnector
  pub runs : e ≡ ok after
  pub message : contents after.reader.msgbuffer ≡ m
  pub wire_kept : after.wire ≡ w
  pub valid : IsValid after.reader.msgbuffer
  pub idle : Idle after

length-zero : (xs : List ℕ) → length xs ≡ 0 → xs ≡ []
length-zero [] e = refl
length-zero (x ∷ xs) e = absurd (omega (arith, e))

-- The bytes that `RecvSome` has put into the block.
chunk-received :
    (c : SyncConnector) (bs : List ℕ) → length bs ≤ length c.readbuf → chunk_of (received bs c) ≡ bs
chunk-received c bs l =
    ap (λ k. take k (memcpy c.readbuf 0 bs)) {x = length bs} {y = 0 + length bs} (omega arith)
    ∙ take-memcpy c.readbuf 0 bs (omega arith)

-- One round of the loop.
round_cons :
    (os : List (Option (List ℕ))) (c : SyncConnector) (b : ℕ) (bs : List ℕ)
    → length (b ∷ bs) ≤ length c.readbuf
    → recv_loop (some (b ∷ bs) ∷ os) c
      ≡ cut_or (recv_loop os) (cut_pack c.reader (b ∷ bs)) (received (b ∷ bs) c)
unfolding recv_loop
round_cons os c b bs l =
    ap (λ k. cut_or (recv_loop os) (cut_pack c.reader k) (received (b ∷ bs) c))
      (chunk-received c (b ∷ bs) l)

pub round_nonempty :
    (os : List (Option (List ℕ))) (c : SyncConnector) (bs : List ℕ)
    → 0 < length bs
    → length bs ≤ length c.readbuf
    → recv_loop (some bs ∷ os) c ≡ cut_or (recv_loop os) (cut_pack c.reader bs) (received bs c)
round_nonempty os c [] p l = absurd (omega arith)
round_nonempty os c (b ∷ bs) p l = round_cons os c b bs l

module _ (t : ℕ) (m : List ℕ) (fits : length m ≤ max_msg) where
  pub length-frame : length (frame (t, m)) ≡ hdrlen + length m
  length-frame =
      omega (arith, length-append (sent_header t (length m)) m, length-sent_header t (length m))

  pub announced-frame : announced (frame (t, m)) ≡ length m
  announced-frame = announced-sent_header t (length m) m (omega arith)

  -- A part of the frame that holds the header announces the length of the message.
  announced-part :
      (xs rest : List ℕ) → xs ++ rest ≡ frame (t, m) → hdrlen ≤ length xs → announced xs ≡ length m
  announced-part xs rest e l = sym (announced-append xs rest l) ∙ ap announced e ∙ announced-frame

  pub body-frame : take (length m) (drop hdrlen (frame (t, m))) ≡ m
  body-frame =
      ap (take (length m)) (
        subst (λ k. drop k (frame (t, m)) ≡ m) (length-sent_header t (length m))
          (drop-length_append (sent_header t (length m)) m))
      ∙ take-all (length m) m (omega arith)

  -- A part of the frame: it is not complete before its last byte.
  incomplete : (r : Reader) (xs : List ℕ) → Holds r xs → xs ≢ frame (t, m)
  incomplete r xs (between w z short) e = absurd (omega (arith, ap length e, length-frame))
  incomplete r xs (inside w long size pos small short) e =
      absurd (omega (arith, ap length e, ap announced e, announced-frame, length-frame))

  -- The chunk that completes the frame.
  complete :
      (again : SyncConnector → Outcome) (next : SyncConnector) (all rest : List ℕ) (r : Reader)
      (left : List ℕ)
      → next.flag ≡ start
      → length next.readbuf ≡ read_size
      → all ++ rest ≡ frame (t, m)
      → PackSpec all (reply r left)
      → Replied m next.wire (cut_or again (reply r left) next)
  complete again next all rest r left f l part (got, behind, long, held, valid) =
      let size : announced all ≡ length m = announced-part all rest part (omega (arith, long)) in
      let len : length all + length rest ≡ hdrlen + length m =
        sym (length-append all rest) ∙ ap length part ∙ length-frame in
      let none_left : rest ≡ [] = length-zero rest (omega (arith, len, long, size)) in
      let whole : all ≡ frame (t, m) =
        sym (append-nil all) ∙ ap (λ k. all ++ k) (sym none_left) ∙ part in
      record {
        after = record next { reader = r; readsize = length left };
        runs = refl;
        message =
            got
            ∙ ap (λ k. take k (drop hdrlen all)) size
            ∙ ap (λ k. take (length m) (drop hdrlen k)) whole
            ∙ body-frame;
        wire_kept = refl;
        valid = valid;
        idle = record {
          started = f;
          empty = held;
          used =
              ap length behind
              ∙ omega (arith, length-drop (hdrlen + announced all) all, len, long, size);
          block = l;
        };
      }

  -- A whole frame at once.
  pub cut_frame-Replied :
      (again : SyncConnector → Outcome) (next : SyncConnector)
      → hdrlen + length m ≤ read_size
      → next.flag ≡ start
      → Holds next.reader []
      → length next.readbuf ≡ read_size
      → Replied m next.wire (cut_or again (cut_pack next.reader (frame (t, m))) next)
  cut_frame-Replied again next small f held l = follow (cut_pack next.reader (frame (t, m))) (
      cut_pack-PackSpec next.reader [] (frame (t, m)) held (omega (arith, length-frame))
        (λ long. omega (arith, announced-frame, fits)))
    where
      follow : (p : Packed) → PackSpec (frame (t, m)) p → Replied m next.wire (cut_or again p next)
      follow (more r) h = absurd (incomplete r (frame (t, m)) h refl)
      follow (dropped r) h = absurd (omega (arith, h.1, announced-frame, fits))
      follow (reply r left) h =
          complete again next (frame (t, m)) [] r left f l (append-nil (frame (t, m))) h

  recv_loop-Replied :
      (cs : List (List ℕ)) (os : List (Option (List ℕ))) (c : SyncConnector) (xs : List ℕ)
      → AllChunks cs
      → Holds c.reader xs
      → c.flag ≡ start
      → length c.readbuf ≡ read_size
      → xs ++ flatten cs ≡ frame (t, m)
      → Replied m c.wire (recv_loop (answers cs ++ os) c)
  recv_loop-Replied [] os c xs a h f l e =
      absurd (incomplete c.reader xs h (sym (append-nil xs) ∙ e))
  recv_loop-Replied ([] ∷ cs) os c xs a h f l e = absurd (omega (arith, a.0))
  recv_loop-Replied ((b ∷ bs) ∷ cs) os c xs a h f l e =
      let part : (xs ++ (b ∷ bs)) ++ flatten cs ≡ frame (t, m) =
        append_assoc xs (b ∷ bs) (flatten cs) ∙ e in
      let le : hdrlen ≤ length (xs ++ (b ∷ bs)) → announced (xs ++ (b ∷ bs)) ≤ max_msg = λ long.
        let k = announced-part (xs ++ (b ∷ bs)) (flatten cs) part long in omega (arith, k, fits) in
      subst (Replied m c.wire) (sym (round_cons (answers cs ++ os) c b bs (omega (arith, l, a.1))))
        (follow (cut_pack c.reader (b ∷ bs)) part le
          (cut_pack-PackSpec c.reader xs (b ∷ bs) h a.1 le) (recv_loop-Replied cs os))
    where
      next : SyncConnector
      next = received (b ∷ bs) c

      follow :
          (p : Packed)
          → (xs ++ (b ∷ bs)) ++ flatten cs ≡ frame (t, m)
          → (hdrlen ≤ length (xs ++ (b ∷ bs)) → announced (xs ++ (b ∷ bs)) ≤ max_msg)
          → PackSpec (xs ++ (b ∷ bs)) p
          → ((c : SyncConnector) (xs : List ℕ)
              → AllChunks cs
              → Holds c.reader xs
              → c.flag ≡ start
              → length c.readbuf ≡ read_size
              → xs ++ flatten cs ≡ frame (t, m)
              → Replied m c.wire (recv_loop (answers cs ++ os) c))
          → Replied m next.wire (cut_or (recv_loop (answers cs ++ os)) p next)
      follow (more r) part le h' ih =
          ih (record next { reader = r }) (xs ++ (b ∷ bs)) a.2 h' f
            (length-memcpy c.readbuf 0 (b ∷ bs) ∙ l) part
      follow (dropped r) part le big ih = absurd (omega (arith, big.1, le big.0))
      follow (reply r rest) part le h' ih =
          complete (recv_loop (answers cs ++ os)) next (xs ++ (b ∷ bs)) (flatten cs) r rest f
            (length-memcpy c.readbuf 0 (b ∷ bs) ∙ l) part h'

  -- On a started connection between two messages, with nothing left of the last chunk: if a framed
  -- message of at most 0xFFFF - 8 bytes arrives in any chunks of one to M_SOCKET_READ_SIZE bytes,
  -- Recv takes exactly these answers of the system, returns the buffer with the message, and
  -- leaves the connection between two messages again.
  pub recv-Replied :
      (cs : List (List ℕ)) (os : List (Option (List ℕ))) (c : SyncConnector)
      → Idle c
      → AllChunks cs
      → flatten cs ≡ frame (t, m)
      → Replied m c.wire (recv (answers cs ++ os) c)
  unfolding recv
  recv-Replied cs os c i a e =
      subst (Replied m c.wire)
        (sym (
          ap
            (λ f.
              if is_started f
              then (if ltb 0 c.readsize
                  then cut_or (recv_loop (answers cs ++ os))
                      (cut_pack (cleared c).reader (chunk_of c)) (cleared c)
                  else recv_loop (answers cs ++ os) (cleared c))
              else failed c)
            i.started
          ∙ ap
              (λ k.
                if ltb 0 k
                then cut_or (recv_loop (answers cs ++ os))
                    (cut_pack (cleared c).reader (chunk_of c)) (cleared c)
                else recv_loop (answers cs ++ os) (cleared c))
              i.used))
        (recv_loop-Replied cs os (cleared c) [] a i.empty i.started i.block e)
