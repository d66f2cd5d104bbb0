-- ===== src/Netio/Sync/Again.antt =====
-- `SyncConnector::Recv` (netio/tconnector_impl.hpp) when a chunk held more than one message.
use netlib.Common.{
  ℕ, zero, suc, ◌*◌, some, memcpy, length-memcpy, length-append, length-drop, drop-append,
  take-append, ◌+◌, ◌≤◌, ◌≡◌, refl, sym, ap, subst, ◌∙◌, List, [], ◌∷◌, ◌++◌, arith, ltb, length,
  take, drop, if◌then◌else◌, lt→ltb, Option,
}
use netlib.Netio.Header.{hdrlen, announced, announced-append}
use netlib.Netio.Reader.Frames.{frame}
use netlib.Netio.Reader.Step.{Holds, between, inside}
use netlib.Netio.Reader.{read_size}
use netlib.Base.Buffer.{contents}
use netlib.Netio.Writer.{start}
use netlib.Netio.Sync.{
  SyncConnector, recv, recv_loop, cut_or, cut_pack, cleared, chunk_of, failed, is_started, max_msg,
  ok, Outcome, Packed, more, dropped, reply, received,
}
use netlib.Netio.Sync.Cut.{PackSpec, cut_pack-PackSpec}
use netlib.Netio.Sync.Recv.{
  Replied, Idle, cut_frame-Replied, length-frame, announced-frame, body-frame, round_nonempty,
}

recv-stale :
    (t : ℕ) (m : List ℕ) (os : List (Option (List ℕ))) (c : SyncConnector)
    → length m ≤ max_msg
    → hdrlen + length m ≤ read_size
    → c.flag ≡ start
    → Holds (cleared c).reader []
    → length c.readbuf ≡ read_size
    → c.readsize ≡ hdrlen + length m
    → take (hdrlen + length m) c.readbuf ≡ frame (t, m)
    → Replied m c.wire (recv os c)
unfolding recv
recv-stale t m os c fits small started held block left old =
    subst (Replied m c.wire)
      (sym (
        ap
          (λ f.
            if is_started f
            then (if ltb 0 c.readsize
                then cut_or (recv_loop os) (cut_pack (cleared c).reader (chunk_of c)) (cleared c)
                else recv_loop os (cleared c))
            else failed c)
          started
        ∙ ap
            (λ b.
              if b
              then cut_or (recv_loop os) (cut_pack (cleared c).reader (chunk_of c)) (cleared c)
              else recv_loop os (cleared c))
            (lt→ltb 0 c.readsize (omega (arith, left)))
        ∙ ap (λ k. cut_or (recv_loop os) (cut_pack (cleared c).reader k) (cleared c))
            (ap (λ k. take k c.readbuf) left ∙ old)))
      (cut_frame-Replied t m fits (recv_loop os) (cleared c) small started held block)

-- The front of what `memcpy` puts at the start of a block.
memcpy-front :
    (block xs ys : List ℕ) (k : ℕ)
    → length xs ≡ k
    → length (xs ++ ys) ≤ length block
    → take k (memcpy block 0 (xs ++ ys)) ≡ xs
memcpy-front block [] ys zero e l = refl
memcpy-front block [] ys (suc k) e l = absurd (omega (arith, e))
memcpy-front block (x ∷ xs) ys zero e l = absurd (omega (arith, e))
memcpy-front [] (x ∷ xs) ys (suc k) e l = absurd (omega (arith, l))
memcpy-front (b ∷ block) (x ∷ xs) ys (suc k) e l =
    ap (◌∷◌ x) (memcpy-front block xs ys k (omega (arith, e)) (omega (arith, l)))

module _ (t t' : ℕ) (m m' : List ℕ) (fits : length m ≤ max_msg) (same : length m' ≡ length m) where
  abbrev two : List ℕ
  two = frame (t, m) ++ frame (t', m')

  fits' : length m' ≤ max_msg
  fits' = omega (arith, fits, same)

  length-two : length two ≡ 2 * (hdrlen + length m)
  length-two = omega (
    arith,
    length-append (frame (t, m)) (frame (t', m')),
    length-frame t m fits,
    length-frame t' m' fits',
    same,
  )

  announced-two : announced two ≡ length m
  announced-two =
      announced-append (frame (t, m)) (frame (t', m')) (omega (arith, length-frame t m fits))
      ∙ announced-frame t m fits

  body-two : take (length m) (drop hdrlen two) ≡ m
  body-two =
      let l = length-frame t m fits in
      ap (take (length m)) (drop-append hdrlen (frame (t, m)) (frame (t', m')) (omega (arith, l)))
      ∙ take-append (length m) (drop hdrlen (frame (t, m))) (frame (t', m'))
          (omega (arith, l, length-drop hdrlen (frame (t, m))))
      ∙ body-frame t m fits

  -- The first of the two calls, and what the second one starts from.
  record First (e : Outcome) (block : List ℕ) : Type 0 where
    after : SyncConnector
    runs : e ≡ ok after
    message : contents after.reader.msgbuffer ≡ m
    started : after.flag ≡ start
    empty : Holds (cleared after).reader []
    left : after.readsize ≡ hdrlen + length m
    written : after.readbuf ≡ memcpy block 0 two

  cut_two :
      (again : SyncConnector → Outcome) (next : SyncConnector) (block : List ℕ) (p : Packed)
      → next.flag ≡ start
      → next.readbuf ≡ memcpy block 0 two
      → PackSpec two p
      → length two ≤ read_size
      → First (cut_or again p next) block
  cut_two again next block (more (r)) f w (between _ _ short) l =
      absurd (omega (arith, short, length-two))
  cut_two again next block (more r) f w (inside _ _ _ _ _ short) l =
      absurd (omega (arith, short, length-two, announced-two))
  cut_two again next block (dropped r) f w big l =
      absurd (omega (arith, big.1, announced-two, fits))
  cut_two again next block (reply r rest) f w (got, behind, long, held, _) l = record {
    after = record next { reader = r; readsize = length rest };
    runs = refl;
    message = got ∙ ap (λ k. take k (drop hdrlen two)) announced-two ∙ body-two;
    started = f;
    empty = held;
    left =
        ap length behind
        ∙ omega (arith, length-drop (hdrlen + announced two) two, announced-two, length-two);
    written = w;
  }

  first :
      (os : List (Option (List ℕ))) (c : SyncConnector)
      → Idle c
      → 2 * (hdrlen + length m) ≤ read_size
      → First (recv (some two ∷ os) c) c.readbuf
  unfolding recv
  first os c i small =
      subst (λ e. First e c.readbuf)
        (sym (
          ap
            (λ f.
              if is_started f
              then (if ltb 0 c.readsize
                  then cut_or (recv_loop (some two ∷ os)) (cut_pack (cleared c).reader (chunk_of c))
                      (cleared c)
                  else recv_loop (some two ∷ os) (cleared c))
              else failed c)
            i.started
          ∙ ap
              (λ k.
                if ltb 0 k
                then cut_or (recv_loop (some two ∷ os)) (cut_pack (cleared c).reader (chunk_of c))
                    (cleared c)
                else recv_loop (some two ∷ os) (cleared c))
              i.used
          ∙ round_nonempty os (cleared c) two (omega (arith, length-two))
              (omega (arith, small, length-two, i.block))))
        (cut_two (recv_loop os) (received two (cleared c)) c.readbuf
          (cut_pack (cleared c).reader two) i.started refl
          (cut_pack-PackSpec (cleared c).reader [] two i.empty (omega (arith, small, length-two))
            (λ long. omega (arith, announced-two, fits)))
          (omega (arith, small, length-two)))

-- On a started connection between two messages: if two framed messages of the same length arrive
-- in one chunk, the first Recv returns the first one, and the next Recv returns the first one
-- again, whatever the system answers then, instead of the second.
pub recv-repeats :
    (t t' : ℕ) (m m' : List ℕ) (os os' : List (Option (List ℕ))) (c : SyncConnector)
    → Idle c
    → length m' ≡ length m
    → 2 * (hdrlen + length m) ≤ read_size
    → (c' : SyncConnector) × (recv (some (frame (t, m) ++ frame (t', m')) ∷ os) c ≡ ok c')
      × (contents c'.reader.msgbuffer ≡ m)
      × Replied m c'.wire (recv os' c')
recv-repeats t t' m m' os os' c i same small =
    let fits : length m ≤ max_msg = omega (arith, small) in
    let f = first t t' m m' fits same os c i small in
    let l = length-frame t m fits in
    let len = length-two t t' m m' fits same in
    (
      f.after,
      f.runs,
      f.message,
      recv-stale t m os' f.after fits (omega (arith, small)) f.started f.empty
          (ap length f.written
            ∙ length-memcpy c.readbuf 0 (frame (t, m) ++ frame (t', m'))
            ∙ i.block)
          f.left
          (ap (take (hdrlen + length m)) f.written
            ∙ memcpy-front c.readbuf (frame (t, m)) (frame (t', m')) (hdrlen + length m) l
                (omega (arith, small, i.block, len))),
    )
