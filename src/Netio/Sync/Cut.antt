-- ===== src/Netio/Sync/Cut.antt =====
-- `SyncConnector::_CutMsgPack` (netio/tconnector_impl.hpp) against `TcpStreamSocket::_CutMsgPack`:
-- up to the limit of this class the two halves do the same.
use netlib.Common.{
  ℕ, ◌+◌, ◌≤◌, ◌<◌, ◌≡◌, refl, sym, ap, subst, ◌∙◌, inl, inr, Bool, true, false, List, [], ◌++◌,
  arith, ltb, leb, Bool-cases, le→ltb, length, length-take, take, drop, if◌then◌else◌, ◌==◌, add32,
  sub32,
}
use netlib.Base.Buffer.{contents, clear, write, length_of}
use netlib.Base.Buffer.Valid.{IsValid}
use netlib.Netio.Header.{hdrlen, n2h, announced}
use netlib.Netio.Reader.{
  Reader, pack_size, read_size, Headed, wait, bad, go, read_header, load_header, cut_header, Bodied,
  partial, notify, cut_body,
}
use netlib.Netio.Reader.Step.{
  Holds, HeadSpec, Loaded, write-Buffered, cut_header-HeadSpec, BodySpec, cut_body-BodySpec,
}
use netlib.Netio.Sync.{
  Packed, more, dropped, reply, max_msg, take_header, sync_header, sync_body, with_head, cut_pack,
}

-- The two limits on the size differ.
abbrev sized : ℕ → Reader → List ℕ → Headed
sized limit r buf = if ltb limit r.curheader.size then bad r else go r buf

sized-eq :
    (r : Reader) (all buf rest : List ℕ)
    → HeadSpec all buf (sized pack_size r rest)
    → (hdrlen ≤ length all → announced all ≤ max_msg)
    → sized max_msg r rest ≡ sized pack_size r rest
sized-eq r all buf rest h le = elim (Bool-cases (ltb pack_size r.curheader.size)) [
  | inl big ↦
      let k = subst (λ b. HeadSpec all buf (if b then bad r else go r rest)) big h in
      absurd (omega (arith, k.1, le k.0))
  | inr small ↦
      let k = subst (λ b. HeadSpec all buf (if b then bad r else go r rest)) small h in
      ap (λ b. if b then bad r else go r rest)
        (le→ltb max_msg r.curheader.size (omega (arith, k.size_read, le k.long)) ∙ sym small)
]

take_header-eq :
    (r : Reader) (all buf rest : List ℕ)
    → HeadSpec all buf (load_header r rest)
    → (hdrlen ≤ length all → announced all ≤ max_msg)
    → take_header r rest ≡ load_header r rest
unfolding take_header load_header
take_header-eq r all buf rest h le =
    sized-eq
      (record {
        msgbuffer = (read_header r.msgbuffer r.curheader).0;
        curheader = n2h (read_header r.msgbuffer r.curheader).1;
      })
      all buf rest h le

-- The branches of the first half.
abbrev branches : Bool → Bool → Bool → Headed → Headed → Headed → Headed → Headed
branches first short there w a b g =
    if first then (if short then w else if there then a else b) else g

branches-eq :
    (P : Headed → Type 0) (first short there : Bool) (w a b g a' b' : Headed)
    → P (branches first short there w a b g)
    → (P a → a' ≡ a)
    → (P b → b' ≡ b)
    → branches first short there w a' b' g ≡ branches first short there w a b g
branches-eq P true true there w a b g a' b' h p q = refl
branches-eq P true false true w a b g a' b' h p q = p h
branches-eq P true false false w a b g a' b' h p q = q h
branches-eq P false short there w a b g a' b' h p q = refl

sync_header-eq :
    (r : Reader) (all buf : List ℕ)
    → HeadSpec all buf (cut_header r buf)
    → (hdrlen ≤ length all → announced all ≤ max_msg)
    → sync_header r buf ≡ cut_header r buf
unfolding sync_header cut_header
sync_header-eq r all buf h le =
    let d = length_of r.msgbuffer in
    let lack = sub32 hdrlen d in
    let r' : Reader = record r { msgbuffer = write r.msgbuffer (take lack buf) } in
    branches-eq (HeadSpec all buf) (r.curheader.size == 0) (ltb (add32 (length buf) d) hdrlen)
      (leb hdrlen d) (wait (record r { msgbuffer = write r.msgbuffer buf })) (load_header r buf)
      (load_header r' (drop lack buf)) (go r buf) (take_header r buf)
      (take_header r' (drop lack buf)) h (λ k. take_header-eq r all buf buf k le)
      (λ k. take_header-eq r' all buf (drop lack buf) k le)

-- What the code of the other class makes of a result of this one's second half.
abbrev as_bodied : Packed → Bodied
as_bodied (more r) = partial r
as_bodied (dropped r) = partial r
as_bodied (reply r rest) =
    notify (record { msgbuffer = clear r.msgbuffer; curheader = r.curheader }) rest
      (contents r.msgbuffer)

as_bodied_if :
    (b : Bool) (r r' : Reader) (rest : List ℕ)
    → as_bodied (if b then more r else reply r' rest) ≡ (
        if b
        then partial r
        else notify
            (record { msgbuffer = clear r'.msgbuffer; curheader = r'.curheader })
            rest
            (contents r'.msgbuffer))
as_bodied_if true r r' rest = refl
as_bodied_if false r r' rest = refl

sync_body-eq : (r : Reader) (buf : List ℕ) → as_bodied (sync_body r buf) ≡ cut_body r buf
unfolding sync_body cut_body
sync_body-eq r buf =
    let d = length_of r.msgbuffer in
    let lack = sub32 r.curheader.size d in
    as_bodied_if (ltb (add32 (length buf) d) r.curheader.size)
      (record r { msgbuffer = write r.msgbuffer buf })
      (record {
        msgbuffer = write r.msgbuffer (take lack buf);
        curheader = record r.curheader { size = 0 };
      })
      (drop lack buf)

-- The buffer of a reply is in order.
Whole : Packed → Type 0
Whole (more r) = Unit
Whole (dropped r) = Unit
Whole (reply r rest) = IsValid r.msgbuffer

if-Whole :
    (b : Bool) (x y : Reader) (rest : List ℕ)
    → IsValid y.msgbuffer
    → Whole (if b then more x else reply y rest)
unfolding Whole
if-Whole true x y rest v = tt
if-Whole false x y rest v = v

sync_body-Whole :
    (r : Reader) (all buf rest : List ℕ)
    → Loaded all buf r rest
    → length buf ≤ read_size
    → Whole (sync_body r rest)
unfolding sync_body
sync_body-Whole r all buf rest ld l =
    let lack = sub32 r.curheader.size (length_of r.msgbuffer) in
    if-Whole (ltb (add32 (length rest) (length_of r.msgbuffer)) r.curheader.size) _ _ _
      (write-Buffered ld.body (take lack rest) ld.buffered
        (omega (arith, length-take lack rest, ld.small, ld.below, ld.shrinks))).valid

-- What `_CutMsgPack` makes of the stream `all` up to the end of this chunk.
abbrev pub PackSpec : List ℕ → Packed → Type 0
PackSpec all (more r) = Holds r all
PackSpec all (dropped r) = (hdrlen ≤ length all) × (max_msg < announced all)
PackSpec all (reply r rest) =
    (contents r.msgbuffer ≡ take (announced all) (drop hdrlen all))
    × (rest ≡ drop (hdrlen + announced all) all)
    × (hdrlen + announced all ≤ length all)
    × Holds (record { msgbuffer = clear r.msgbuffer; curheader = r.curheader }) []
    × IsValid r.msgbuffer

NotDropped : Packed → Type 0
NotDropped (dropped r) = ⊥
NotDropped (more r) = Unit
NotDropped (reply r rest) = Unit

if-NotDropped :
    (b : Bool) (x y : Reader) (rest : List ℕ) → NotDropped (if b then more x else reply y rest)
unfolding NotDropped
if-NotDropped true x y rest = tt
if-NotDropped false x y rest = tt

sync_body-NotDropped : (r : Reader) (buf : List ℕ) → NotDropped (sync_body r buf)
unfolding sync_body
sync_body-NotDropped r buf =
    if-NotDropped (ltb (add32 (length buf) (length_of r.msgbuffer)) r.curheader.size) _ _ _

body-PackSpec :
    (all buf : List ℕ) (p : Packed)
    → NotDropped p
    → BodySpec all buf (as_bodied p)
    → Whole p
    → PackSpec all p
unfolding NotDropped Whole
body-PackSpec all buf (more r) k h v = h
body-PackSpec all buf (dropped r) k h v = elim k [ ]
body-PackSpec all buf (reply r rest) k (held, small, long, m, left, _) v = (m, left, long, held, v)

head-PackSpec :
    (all buf : List ℕ) (h : Headed)
    → HeadSpec all buf h
    → (hdrlen ≤ length all → announced all ≤ max_msg)
    → length buf ≤ read_size
    → PackSpec all (with_head h)
head-PackSpec all buf (wait r) h le l = h.0
head-PackSpec all buf (bad r) h le l = absurd (omega (arith, h.1, le h.0))
head-PackSpec all buf (go r rest) h le l =
    body-PackSpec all buf (sync_body r rest) (sync_body-NotDropped r rest)
      (subst (BodySpec all buf) (sym (sync_body-eq r rest)) (cut_body-BodySpec r all buf rest h l))
      (sync_body-Whole r all buf rest h l)

-- A chunk that comes after `xs`, of a message within the limit.
pub cut_pack-PackSpec :
    (r : Reader) (xs buf : List ℕ)
    → Holds r xs
    → length buf ≤ read_size
    → (hdrlen ≤ length (xs ++ buf) → announced (xs ++ buf) ≤ max_msg)
    → PackSpec (xs ++ buf) (cut_pack r buf)
unfolding cut_pack
cut_pack-PackSpec r xs buf w l le =
    let h = cut_header-HeadSpec r xs buf w l in
    subst (λ k. PackSpec (xs ++ buf) (with_head k)) (sym (sync_header-eq r (xs ++ buf) buf h le))
      (head-PackSpec (xs ++ buf) buf (cut_header r buf) h le l)
