-- ===== src/Netio/Sync/Send.antt =====
-- `SyncConnector::Send` (netio/tconnector_impl.hpp): the loop of partial writes.
use netlib.Common.{
  ℕ, ◌+◌, ◌-◌, ◌≤◌, ◌<◌, ◌≡◌, refl, sym, ap, subst, ◌∙◌, ◌⊎◌, inl, inr, true, false, Option, none,
  some, List, [], ◌∷◌, ◌++◌, append_assoc, append-nil, arith, ltb, leb, Bool-cases, length, take,
  drop, if◌then◌else◌, length-append, length-drop, take-append-drop, ◌==◌, ==_iff, ne_==, ==_ne,
  lt→ltb, le→leb, ◌&&◌,
}
use netlib.Base.Buffer.{contents, clear, cut_data, length_of, write}
use netlib.Base.Buffer.Valid.{IsValid, cut_data-enough, length-contents, length_of-lem}
use netlib.Netio.Header.{hdrlen, sent_header, length-sent_header}
use netlib.Netio.Reader.Frames.{frame}
use netlib.Netio.Reader.Step.{Buffered, write-Buffered, clear-Buffered}
use netlib.Netio.Writer.{start, stop}
use netlib.Netio.Sync.{
  SyncConnector, Outcome, ok, failed, send_loop, send, max_msg, is_started, close,
}

-- The system takes at least one byte at a time, and no more than it is given, until all `k` are
-- taken.
abbrev pub Takes : List ℕ → ℕ → Type 0
Takes [] k = k ≡ 0
Takes (n ∷ ns) k = (0 < n) × (n ≤ k) × Takes ns (k - n)

abbrev pub counts : List ℕ → List (Option ℕ)
counts [] = []
counts (n ∷ ns) = some n ∷ counts ns

-- What `Send` leaves when it succeeds: the wire has these bytes more, and nothing else changes.
pub record Delivered (bs : List ℕ) (c : SyncConnector) (e : Outcome) : Type 0 where
  pub after : SyncConnector
  pub runs : e ≡ ok after
  pub wired : after.wire ≡ c.wire ++ bs
  pub flag_kept : after.flag ≡ c.flag
  pub reader_kept : after.reader ≡ c.reader
  pub readsize_kept : after.readsize ≡ c.readsize
  pub block_kept : after.readbuf ≡ c.readbuf

-- One answer to `SendSome`.
abbrev taken : ℕ → SyncConnector → SyncConnector
taken n c = record c {
  wire = c.wire ++ take n (contents c.sndbuffer);
  sndbuffer = cut_data c.sndbuffer n;
}

length-left :
    (n : ℕ) (c : SyncConnector)
    → IsValid c.sndbuffer
    → n ≤ length (contents c.sndbuffer)
    → length_of (taken n c).sndbuffer ≡ length (contents c.sndbuffer) - n
length-left n c v le =
    let (e, v') = cut_data-enough n v le in
    length_of-lem v' ∙ sym (length-contents v') ∙ ap length e ∙ length-drop n (contents c.sndbuffer)

length-nil : (xs : List ℕ) → length xs ≡ 0 → xs ≡ []
length-nil [] e = refl
length-nil (x ∷ xs) e = absurd (omega (arith, e))

module _ (os : List (Option ℕ)) where
  send_loop-Delivered :
      (ns : List ℕ) (c : SyncConnector)
      → IsValid c.sndbuffer
      → 0 < length (contents c.sndbuffer)
      → Takes ns (length (contents c.sndbuffer))
      → Delivered (contents c.sndbuffer) c (send_loop (counts ns ++ os) c)
  unfolding send_loop
  send_loop-Delivered [] c v pos t = absurd (omega (arith, t))
  send_loop-Delivered (n ∷ ns) c v pos t =
      follow (cut_data-enough n v t.1) (length-left n c v t.1) (send_loop-Delivered ns (taken n c))
        (Bool-cases (length_of (taken n c).sndbuffer == 0))
    where
      follow :
          (contents (cut_data c.sndbuffer n) ≡ drop n (contents c.sndbuffer))
            × IsValid (cut_data c.sndbuffer n)
          → length_of (taken n c).sndbuffer ≡ length (contents c.sndbuffer) - n
          → (IsValid (taken n c).sndbuffer
              → 0 < length (contents (taken n c).sndbuffer)
              → Takes ns (length (contents (taken n c).sndbuffer))
              → Delivered
                  (contents (taken n c).sndbuffer)
                  (taken n c)
                  (send_loop (counts ns ++ os) (taken n c)))
          → (length_of (taken n c).sndbuffer == 0 ≡ true)
            ⊎ (length_of (taken n c).sndbuffer == 0 ≡ false)
          → Delivered (contents c.sndbuffer) c (
              if length_of (taken n c).sndbuffer == 0
              then ok (taken n c)
              else send_loop (counts ns ++ os) (taken n c))
      follow (e, v') l ih (inl z) =
          let none_left : drop n (contents c.sndbuffer) ≡ [] =
            length-nil (drop n (contents c.sndbuffer)) (
              length-drop n (contents c.sndbuffer)
              ∙ sym l
              ∙ (==_iff (length_of (taken n c).sndbuffer) 0).0 z) in
          record {
            after = taken n c;
            runs =
                ap (λ b. if b then ok (taken n c) else send_loop (counts ns ++ os) (taken n c)) z;
            wired =
                ap (λ k. c.wire ++ k)
                  (sym (append-nil (take n (contents c.sndbuffer)))
                    ∙ ap (λ k. take n (contents c.sndbuffer) ++ k) (sym none_left)
                    ∙ take-append-drop n (contents c.sndbuffer));
            flag_kept = refl;
            reader_kept = refl;
            readsize_kept = refl;
            block_kept = refl;
          }
      follow (e, v') l ih (inr nz) =
          let len : length (contents (taken n c).sndbuffer) ≡ length (contents c.sndbuffer) - n =
            ap length e ∙ length-drop n (contents c.sndbuffer) in
          let d =
            ih v' (positive (length_of (taken n c).sndbuffer) nz len l)
              (subst (Takes ns) (sym len) t.2) in
          record {
            after = d.after;
            runs =
                ap (λ b. if b then ok (taken n c) else send_loop (counts ns ++ os) (taken n c)) nz
                ∙ d.runs;
            wired =
                d.wired
                ∙ append_assoc c.wire (take n (contents c.sndbuffer))
                    (contents (taken n c).sndbuffer)
                ∙ ap (λ k. c.wire ++ k)
                    (ap (λ k. take n (contents c.sndbuffer) ++ k) e
                      ∙ take-append-drop n (contents c.sndbuffer));
            flag_kept = d.flag_kept;
            reader_kept = d.reader_kept;
            readsize_kept = d.readsize_kept;
            block_kept = d.block_kept;
          }
        where
          positive : (k : ℕ) {j i : ℕ} → (k == 0) ≡ false → j ≡ i → k ≡ i → 0 < j
          positive k {j} {i} nz e l = let ne = ==_ne nz in ground arith

-- The buffer that `Send` fills.
abbrev filled : ℕ → List ℕ → SyncConnector → SyncConnector
filled t bs c = record c {
  sndbuffer = write (write (clear c.sndbuffer) (sent_header t (length bs))) bs;
}

module _ (t : ℕ) (bs : List ℕ) (c : SyncConnector) (v : IsValid c.sndbuffer)
    (fits : length bs ≤ max_msg) where
  filled-Buffered : Buffered (filled t bs c).sndbuffer 0 (frame (t, bs))
  filled-Buffered =
      let hdr = length-sent_header t (length bs) in
      write-Buffered (sent_header t (length bs)) bs
        (write-Buffered [] (sent_header t (length bs)) (clear-Buffered v) (omega (arith, hdr)))
        (omega (arith, hdr, fits))

  length-filled : length (contents (filled t bs c).sndbuffer) ≡ hdrlen + length bs
  length-filled =
      ap length filled-Buffered.holds
      ∙ omega
          (arith, length-append (sent_header t (length bs)) bs, length-sent_header t (length bs))

  module _ (started : c.flag ≡ start) (some_bytes : 0 < length bs) (os : List (Option ℕ)) where
    send-loop : send t bs os c ≡ send_loop os (filled t bs c)
    unfolding send
    send-loop =
        ap
          (λ f.
            if is_started f
            then (if ltb 0 (length bs) && leb (length bs) max_msg
                then send_loop os (filled t bs c)
                else failed c)
            else failed c)
          started
        ∙ ap (λ b. if b && leb (length bs) max_msg then send_loop os (filled t bs c) else failed c)
            (lt→ltb 0 (length bs) some_bytes)
        ∙ ap (λ b. if b then send_loop os (filled t bs c) else failed c)
            (le→leb (length bs) max_msg fits)

-- On a started connection with a valid send buffer, if the system takes at least one byte at a
-- time, no more than it is given and in the end all, Send of one to 0xFFFF - 8 bytes ends and
-- succeeds; the wire then has the framed message more, once and in order, and the state of Recv is
-- as it was.
pub send-Delivered :
    (t : ℕ) (bs : List ℕ) (ns : List ℕ) (os : List (Option ℕ)) (c : SyncConnector)
    → c.flag ≡ start
    → IsValid c.sndbuffer
    → 0 < length bs
    → length bs ≤ max_msg
    → Takes ns (hdrlen + length bs)
    → Delivered (frame (t, bs)) c (send t bs (counts ns ++ os) c)
send-Delivered t bs ns os c started v some_bytes fits takes =
    let w = filled-Buffered t bs c v fits in
    let len = length-filled t bs c v fits in
    let d =
      send_loop-Delivered os ns (filled t bs c) w.valid (omega (arith, len))
        (subst (Takes ns) (sym len) takes) in
    record {
      after = d.after;
      runs = send-loop t bs c v fits started some_bytes (counts ns ++ os) ∙ d.runs;
      wired = d.wired ∙ ap (λ k. c.wire ++ k) w.holds;
      flag_kept = d.flag_kept;
      reader_kept = d.reader_kept;
      readsize_kept = d.readsize_kept;
      block_kept = d.block_kept;
    }

-- The system takes some bytes, but not the last of the `k`.
abbrev pub Stalls : List ℕ → ℕ → Type 0
Stalls [] k = 0 < k
Stalls (n ∷ ns) k = (n < k) × Stalls ns (k - n)

-- What a `Send` leaves whose connection fails: the bytes are on the wire or still in the buffer.
pub record Broken (bs : List ℕ) (c : SyncConnector) (e : Outcome) : Type 0 where
  pub after : SyncConnector
  pub runs : e ≡ failed after
  pub stopped : after.flag ≡ stop
  pub wired : after.wire ++ contents after.sndbuffer ≡ c.wire ++ bs
  pub unsent : 0 < length (contents after.sndbuffer)

module _ (os : List (Option ℕ)) where
  send_loop-Broken :
      (ns : List ℕ) (c : SyncConnector)
      → IsValid c.sndbuffer
      → Stalls ns (length (contents c.sndbuffer))
      → Broken (contents c.sndbuffer) c (send_loop (counts ns ++ none ∷ os) c)
  unfolding send_loop close
  send_loop-Broken [] c v t = record {
    after = record c { flag = stop };
    runs = refl;
    stopped = refl;
    wired = refl;
    unsent = t;
  }
  send_loop-Broken (n ∷ ns) c v t =
      let (e, v') = cut_data-enough n v (omega (arith, t.0)) in
      let l = length-left n c v (omega (arith, t.0)) in
      let len : length (contents (taken n c).sndbuffer) ≡ length (contents c.sndbuffer) - n =
        ap length e ∙ length-drop n (contents c.sndbuffer) in
      let d = send_loop-Broken ns (taken n c) v' (subst (Stalls ns) (sym len) t.1) in
      let nz : (length_of (taken n c).sndbuffer == 0) ≡ false =
        ne_== (length_of (taken n c).sndbuffer) 0 (λ z. absurd (omega (arith, z, l, t.0))) in
      record {
        after = d.after;
        runs =
            ap (λ b. if b then ok (taken n c) else send_loop (counts ns ++ none ∷ os) (taken n c))
              nz
            ∙ d.runs;
        stopped = d.stopped;
        wired =
            d.wired
            ∙ append_assoc c.wire (take n (contents c.sndbuffer)) (contents (taken n c).sndbuffer)
            ∙ ap (λ k. c.wire ++ k)
                (ap (λ k. take n (contents c.sndbuffer) ++ k) e
                  ∙ take-append-drop n (contents c.sndbuffer));
        unsent = d.unsent;
      }

-- On a started connection with a valid send buffer, if the system takes some bytes of a message of
-- one to 0xFFFF - 8 bytes, but not the last ones, and then fails, Send returns false and the
-- connection is stopped; what the wire has more and what is left in the send buffer, which is not
-- empty, make up the framed message.
send-Broken :
    (t : ℕ) (bs : List ℕ) (ns : List ℕ) (os : List (Option ℕ)) (c : SyncConnector)
    → c.flag ≡ start
    → IsValid c.sndbuffer
    → 0 < length bs
    → length bs ≤ max_msg
    → Stalls ns (hdrlen + length bs)
    → Broken (frame (t, bs)) c (send t bs (counts ns ++ none ∷ os) c)
send-Broken t bs ns os c started v some_bytes fits stalls =
    let w = filled-Buffered t bs c v fits in
    let d =
      send_loop-Broken os ns (filled t bs c) w.valid
        (subst (Stalls ns) (sym (length-filled t bs c v fits)) stalls) in
    record {
      after = d.after;
      runs = send-loop t bs c v fits started some_bytes (counts ns ++ none ∷ os) ∙ d.runs;
      stopped = d.stopped;
      wired = d.wired ∙ ap (λ k. c.wire ++ k) w.holds;
      unsent = d.unsent;
    }
