-- ===== src/Netio/Reader/Refine.antt =====
-- One call of `_CutMsgPack` against the stream: it returns, and it cuts what `deframe` cuts.
use netlib.Common.{
  ℕ, zero, suc, ◌+◌, ◌≤◌, ◌<◌, ◌≡◌, refl, ap, ◌⊎◌, inl, inr, true, false, Option, some, List, [],
  ◌∷◌, ◌++◌, arith, length, length-drop,
}
use netlib.Netio.Header.{hdrlen, announced}
use netlib.Netio.Reader.{
  Reader, read_size, Headed, wait, bad, go, Bodied, partial, notify, Cut, cut_header, cut_body,
  after_body, after_header, add_msg, cut_msg_pack,
}
use netlib.Netio.Reader.Spec.{
  Framed, stop, prepend, deframe, deframe-short, deframe-incomplete, deframe-message, deframe-bad,
}
use netlib.Netio.Reader.Step.{
  Holds, between, inside, HeadSpec, BodySpec, cut_header-HeadSpec, cut_body-BodySpec,
}

-- A call has returned, with the messages and the verdict of the stream's own cutting; unless it
-- failed, the reader holds the rest of the stream.
pub record Refines (o : Option Cut) (s : Framed) : Type 0 where
  pub cut : Cut
  pub returned : o ≡ some cut
  pub same_msgs : cut.msgs ≡ s.msgs
  pub same_ok : cut.ok ≡ s.ok
  pub keeps : (cut.ok ≡ false) ⊎ Holds cut.reader s.rest

abbrev Enough : ℕ → Type 0
Enough f =
    (r : Reader) (xs buf : List ℕ) (g : ℕ)
    → Holds r xs
    → length buf ≤ read_size
    → length buf < f
    → length (xs ++ buf) < g
    → Refines (cut_msg_pack f r buf) (deframe g (xs ++ buf))

add_msg-Refines :
    {o : Option Cut} {s : Framed} (m : List ℕ)
    → Refines o s
    → Refines (add_msg m o) (prepend (m ∷ []) s)
add_msg-Refines {o} {s} m t = rw t.returned (record {
  cut = record t.cut { msgs = m ∷ t.cut.msgs };
  returned = refl;
  same_msgs = ap (◌∷◌ m) t.same_msgs;
  same_ok = t.same_ok;
  keeps = t.keeps;
})

-- What a reader holds has no whole message at its front.
pub deframe-Holds : {r : Reader} {xs : List ℕ} (g : ℕ) → Holds r xs → deframe g xs ≡ stop xs true
deframe-Holds {xs} g (between w z short) = deframe-short g xs short
deframe-Holds {xs} g (inside w long size pos small short) = deframe-incomplete g xs short small

module _ (f : ℕ) (ih : Enough f) (all buf : List ℕ) (g : ℕ) (room : length all < g)
    (h : length buf ≤ read_size) (fuel : length buf < suc f) where
  body-Refines :
      (s : Bodied) → BodySpec all buf s → Refines (after_body (cut_msg_pack f) s) (deframe g all)
  body-Refines (partial r) holds = rw (deframe-Holds g holds) (record {
    cut = record { reader = r; msgs = []; ok = true };
    returned = refl;
    same_msgs = refl;
    same_ok = refl;
    keeps = inr holds;
  })
  body-Refines (notify r rest m) (empty, small, whole, e, e', less) =
      rw (deframe-message g all room whole small, ← e, ← e')
        (add_msg-Refines m (
          ih r [] rest g empty (omega arith) (omega arith)
            (omega (arith, ap length e', length-drop (hdrlen + announced all) all))))

  header-Refines :
      (s : Headed) → HeadSpec all buf s → Refines (after_header (cut_msg_pack f) s) (deframe g all)
  header-Refines (wait r) (holds, short) = rw (deframe-short g all short) (record {
    cut = record { reader = r; msgs = []; ok = true };
    returned = refl;
    same_msgs = refl;
    same_ok = refl;
    keeps = inr holds;
  })
  header-Refines (bad r) (long, big) = rw (deframe-bad g all room long big) (record {
    cut = record { reader = r; msgs = []; ok = false };
    returned = refl;
    same_msgs = refl;
    same_ok = refl;
    keeps = inl refl;
  })
  header-Refines (go r rest) loaded =
      body-Refines (cut_body r rest) (cut_body-BodySpec r all buf rest loaded h)

-- With fuel above the chunk's length the loop ends.
pub cut_msg_pack-deframe : (f : ℕ) → Enough f
unfolding cut_msg_pack
cut_msg_pack-deframe zero r xs buf g holds h fuel room = absurd (omega arith)
cut_msg_pack-deframe (suc f) r xs buf g holds h fuel room =
    header-Refines f (cut_msg_pack-deframe f) (xs ++ buf) buf g room h fuel (cut_header r buf)
      (cut_header-HeadSpec r xs buf holds h)
