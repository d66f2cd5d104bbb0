-- ===== src/Netio/Reader/Stream.antt =====
-- `_CutMsgPack` over all chunks of a connection: what comes out does not depend on where the
-- stream was cut, and is what the other side sent.
use netlib.Common.{
  ℕ, suc, ◌≤◌, ◌<◌, ◌≡◌, refl, sym, ap, ◌∙◌, inl, inr, true, false, Option, none, some, List, [],
  ◌∷◌, ◌++◌, append_assoc, append-nil, arith, length, length-append, flatten, Bool-cases, ap₂,
}
use netlib.Base.Buffer.{new}
use netlib.Base.Buffer.Valid.{new-IsValid}
use netlib.Netio.Reader.{Reader, new_reader, read_size, Cut, and_then, feed}
use netlib.Netio.Reader.Spec.{deframe, length-rest}
use netlib.Netio.Reader.Append.{deframe-append, deframe-append_bad}
use netlib.Netio.Reader.Frames.{frames, bodies, AllFit, deframe-frames}
use netlib.Netio.Reader.Step.{Holds, between}
use netlib.Netio.Reader.Refine.{Refines, cut_msg_pack-deframe, deframe-Holds}

-- Each chunk is what one read into `readbuf` can bring.
abbrev pub AllRead : List (List ℕ) → Type 0
AllRead [] = Unit {0}
AllRead (c ∷ cs) = (length c ≤ read_size) × AllRead cs

pub new_reader-Holds : Holds new_reader []
unfolding new_reader new
new_reader-Holds =
    between (record { valid = unfold new in new-IsValid; at = refl; holds = refl }) refl
      (omega arith)

-- A call that has cut the front of a stream, and calls that go on behind it.
and_then-Refines :
    {o : Option Cut} (next : Reader → Option Cut) (g : ℕ) (front later : List ℕ)
    → length (front ++ later) < g
    → ((r : Reader)
        → Holds r (deframe g front).rest
        → Refines (next r) (deframe g ((deframe g front).rest ++ later)))
    → Refines o (deframe g front)
    → Refines (elim o [ none ↦ none | some c ↦ and_then c next ]) (deframe g (front ++ later))
and_then-Refines next g front later room on t = elim (Bool-cases t.cut.ok) [
  | inr bad ↦
      let (same, failed) = deframe-append_bad g front later room (sym t.same_ok ∙ bad) in
      rw (t.returned, bad)
        (record {
          cut = record t.cut { ok = false };
          returned = refl;
          same_msgs = t.same_msgs ∙ sym same;
          same_ok = sym failed;
          keeps = inl refl;
        })
  | inl good ↦ elim t.keeps [
    | inl bad ↦ cc
    | inr holds ↦
        let u = on t.cut.reader holds in
        rw (t.returned, good, u.returned, deframe-append g front later room (sym t.same_ok ∙ good))
          (record {
            cut = record u.cut { msgs = t.cut.msgs ++ u.cut.msgs };
            returned = refl;
            same_msgs = ap₂ ◌++◌ t.same_msgs u.same_msgs;
            same_ok = u.same_ok;
            keeps = u.keeps;
          })
  ]
]

feed-Refines :
    (r : Reader) (xs : List ℕ) (chunks : List (List ℕ)) (g : ℕ)
    → Holds r xs
    → AllRead chunks
    → length (xs ++ flatten chunks) < g
    → Refines (feed r chunks) (deframe g (xs ++ flatten chunks))
unfolding feed
feed-Refines r xs [] g holds small room =
    rw (append-nil xs, deframe-Holds g holds)
      (record {
        cut = record { reader = r; msgs = []; ok = true };
        returned = refl;
        same_msgs = refl;
        same_ok = refl;
        keeps = inr holds;
      })
feed-Refines r xs (c ∷ cs) g holds (small, smalls) room =
    let later = flatten cs in
    let len = ap length (append_assoc xs c later) in
    let front = length-append (xs ++ c) later in
    let rest = length-rest g (xs ++ c) in
    rw (← append_assoc xs c later) (
      and_then-Refines (λ r'. feed r' cs) g (xs ++ c) later (omega (arith, len))
        (λ r' held.
          feed-Refines r' (deframe g (xs ++ c)).rest cs g held smalls
            (omega (arith, len, front, rest, length-append (deframe g (xs ++ c)).rest later)))
        (cut_msg_pack-deframe (suc (length c)) r xs c g holds small (omega arith)
          (omega (arith, len, front))))

-- Whatever chunks of at most M_SOCKET_READ_SIZE bytes a stream arrives in, the calls of
-- _CutMsgPack return, notify the messages that the stream as a whole is cut into, and report a bad
-- stream exactly if the whole stream is bad.
pub feed-deframe :
    (chunks : List (List ℕ)) (g : ℕ)
    → AllRead chunks
    → length (flatten chunks) < g
    → (c : Cut) × (feed new_reader chunks ≡ some c)
      × (c.msgs ≡ (deframe g (flatten chunks)).msgs)
      × (c.ok ≡ (deframe g (flatten chunks)).ok)
feed-deframe chunks g small room =
    let t = feed-Refines new_reader [] chunks g new_reader-Holds small room in
    (t.cut, t.returned, t.same_msgs, t.same_ok)

-- Messages of at most M_SOCKET_PACK_SIZE bytes that one side frames come out on the other side,
-- each once and in order, however the transport cuts the stream into chunks of at most
-- M_SOCKET_READ_SIZE.
pub feed-frames :
    (tms : List (ℕ × List ℕ)) (chunks : List (List ℕ))
    → AllFit tms
    → AllRead chunks
    → flatten chunks ≡ frames tms
    → (c : Cut) × (feed new_reader chunks ≡ some c) × (c.msgs ≡ bodies tms) × (c.ok ≡ true)
feed-frames tms chunks fit small e =
    let g = suc (length (frames tms)) in
    let (c, ran, msgs, ok) = feed-deframe chunks g small (omega (arith, ap length e)) in
    let cut = ap (deframe g) e ∙ deframe-frames g tms (omega arith) fit in
    (c, ran, msgs ∙ ap (λ d. d.msgs) cut, ok ∙ ap (λ d. d.ok) cut)
