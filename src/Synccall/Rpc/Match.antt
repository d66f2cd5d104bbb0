-- ===== src/Synccall/Rpc/Match.antt =====
-- A call and its reply (synccall/synccall_client.hpp, synccall/synccall_svr.hpp) find each other.
use netlib.Common.{
  ℕ, ◌+◌, ◌-◌, ◌%◌, ◌^◌, ◌<◌, ◌≡◌, refl, sym, ap, ◌∙◌, Bool, true, false, Option, none, some, List,
  [], ◌∷◌, ◌++◌, append_assoc, append-nil, arith, ◌==◌, ==_refl, ne_==, length, length-append, drop,
  add32, le_bytes, length-le_bytes, flatten, subst,
}
use netlib.Base.Buffer.{Buffer, clear, cut_data, write_u32, read_u32, contents, written}
use netlib.Base.Buffer.Valid.{
  IsValid, Wrote, clear-IsValid, offset-read, cut_data-back, contents-write,
}
use netlib.Base.Buffer.Strings.{read_u32-front}
use netlib.Base.Buffer.Pack.{write_each, write_each-Wrote, contents-Wrote}
use netlib.Synccall.Rpc.{
  BaseScClient, write_head, fill_request, read_head, check_reply, Handler, deal, on_receive_data,
  twoway_type,
}

-- The three words as they are sent.
abbrev pub head_bytes : ℕ → ℕ → ℕ → List ℕ
head_bytes way msg_type pack_idx = le_bytes way ++ (le_bytes msg_type ++ le_bytes pack_idx)

pub length-head_bytes : (w t i : ℕ) → length (head_bytes w t i) ≡ 12
unfolding le_bytes
length-head_bytes w t i = refl

write_head-Wrote :
    (b : Buffer) (w t i : ℕ)
    → IsValid b
    → b.pos + 2 ^ 12 < 2 ^ 32
    → Wrote b (head_bytes w t i) (write_head b w t i)
unfolding write_u32
write_head-Wrote b w t i v room =
    let bs = le_bytes w ∷ le_bytes t ∷ le_bytes i ∷ [] in
    let e : flatten bs ≡ head_bytes w t i =
      ap (λ xs. le_bytes w ++ (le_bytes t ++ xs)) (append-nil (le_bytes i)) in
    subst (λ xs. Wrote b xs (write_each b bs)) e
      (write_each-Wrote b bs v (omega (arith, ap length e, length-head_bytes w t i)))

read_head-front :
    {b : Buffer} (w t i : ℕ) (rest : List ℕ)
    → IsValid b
    → w < 2 ^ 32
    → t < 2 ^ 32
    → i < 2 ^ 32
    → contents b ≡ head_bytes w t i ++ rest
    → ((read_head b).1 ≡ record { way_type = w; msg_type = t; pack_idx = i })
      × (contents (read_head b).0 ≡ rest)
      × IsValid (read_head b).0
unfolding read_head
read_head-front {b} w t i rest v hw ht hi e =
    let t_rest = le_bytes t ++ (le_bytes i ++ rest) in
    let split : head_bytes w t i ++ rest ≡ le_bytes w ++ t_rest =
      append_assoc (le_bytes w) (le_bytes t ++ le_bytes i) rest
      ∙ ap (◌++◌ (le_bytes w)) (append_assoc (le_bytes t) (le_bytes i) rest) in
    let (w_got, w_left, w_same, w_ok) = read_u32-front w 0 t_rest v hw (e ∙ split) in
    let (t_got, t_left, t_same, t_ok) = read_u32-front t 0 (le_bytes i ++ rest) w_ok ht w_left in
    let (i_got, i_left, i_same, i_ok) = read_u32-front i 0 rest t_ok hi t_left in
    (rw (w_got, t_got, i_got) refl, i_left, i_ok)

-- `CutData(-4)` after a word was read puts it back.
pub word_back :
    {b : Buffer} (v : ℕ) (rest : List ℕ)
    → IsValid b
    → v < 2 ^ 32
    → contents b ≡ le_bytes v ++ rest
    → ((read_u32 b 0).1 ≡ v)
      × (contents (cut_data (read_u32 b 0).0 (2 ^ 32 - 4)) ≡ contents b)
      × IsValid (cut_data (read_u32 b 0).0 (2 ^ 32 - 4))
word_back {b} v rest ok h e =
    let (got, left, same, ok') = read_u32-front v 0 rest ok h e in
    let b1 = (read_u32 b 0).0 in
    let moved : b1.offset ≡ b.offset + 4 =
      unfold read_u32 in
      offset-read 4 ok
        (omega (arith, ap length e, length-append (le_bytes v) rest, length-le_bytes v)) in
    let back : cut_data b1 (2 ^ 32 - 4) ≡ record b1 { offset = b1.offset - 4 } =
      cut_data-back 4 ok' (omega arith) (omega arith) in
    let there : b1.offset - 4 ≡ b.offset = omega arith in
    rw back (
      got,
      ap (λ o. drop o (written b1)) there ∙ ap (drop b.offset) same,
      record {
        unread = omega (arith, ok'.unread);
        fits = ok'.fits;
        block = ok'.block;
        word = ok'.word;
      },
    )

-- A dealer that appends its answer to the buffer it is given.
abbrev pub Answers : Handler → (ℕ → List ℕ → List ℕ) → Type 0
Answers h answer =
    (t : ℕ) (request out : Buffer)
    → IsValid out
    → out.pos ≡ 12
    → Wrote out (answer t (contents request)) (h.two_way t request out)

-- The head that the server writes before the answer.
module _ (info : Buffer) (vi : IsValid info) (way t i : ℕ) where
  echoed : Wrote (clear info) (head_bytes way t i) (write_head (clear info) way t i)
  echoed = write_head-Wrote (clear info) way t i (clear-IsValid vi) (unfold clear in omega arith)

  contents-echoed : contents (write_head (clear info) way t i) ≡ head_bytes way t i
  contents-echoed = contents-Wrote (clear-IsValid vi) echoed ∙ unfold clear in refl

  pos-echoed : (write_head (clear info) way t i).pos ≡ 12
  pos-echoed = unfold clear in omega (arith, echoed.pos_moved, length-head_bytes way t i)

-- What `OnReceiveData` has read of a request when it looks at its way.
requested :
    (b : Buffer) (way t i : ℕ) (msg : List ℕ)
    → IsValid b
    → way < 2 ^ 32
    → t < 2 ^ 32
    → i < 2 ^ 32
    → contents b ≡ head_bytes way t i ++ msg
    → ((read_u32 b 0).1 ≡ way)
      × ((read_head (cut_data (read_u32 b 0).0 (2 ^ 32 - 4))).1
          ≡ record { way_type = way; msg_type = t; pack_idx = i })
      × (contents (read_head (cut_data (read_u32 b 0).0 (2 ^ 32 - 4))).0 ≡ msg)
requested b way t i msg v hw ht hi e =
    let (got, same, ok) =
      word_back way ((le_bytes t ++ le_bytes i) ++ msg) v hw
        (e ∙ append_assoc (le_bytes way) (le_bytes t ++ le_bytes i) msg) in
    let (head, left, ok') = read_head-front way t i msg ok hw ht hi (same ∙ e) in (got, head, left)

-- For a dealer that appends its answer, the server answers a well-formed two-way request with the
-- same three words and the answer to its type and message.
pub on_receive_data-twoway :
    (h : Handler) (answer : ℕ → List ℕ → List ℕ) (info b : Buffer) (t i : ℕ) (msg : List ℕ)
    → Answers h answer
    → IsValid info
    → IsValid b
    → t < 2 ^ 32
    → i < 2 ^ 32
    → contents b ≡ head_bytes twoway_type t i ++ msg
    → (on_receive_data (some h) info b).sent ≡ some (head_bytes twoway_type t i ++ answer t msg)
unfolding on_receive_data deal
on_receive_data-twoway h answer info b t i msg answers vi v ht hi e =
    let (got, head, left) = requested b twoway_type t i msg v (omega arith) ht hi e in
    let out = write_head (clear info) twoway_type t i in
    let w =
      answers t (read_head (cut_data (read_u32 b 0).0 (2 ^ 32 - 4))).0 out
        (echoed info vi twoway_type t i).valid (pos-echoed info vi twoway_type t i) in
    rw (got, head)
      (ap some (
        contents-Wrote (echoed info vi twoway_type t i).valid w
        ∙ ap
            (λ xs. xs ++ answer t (contents (read_head (cut_data (read_u32 b 0).0 (2 ^ 32 - 4))).0))
            (contents-echoed info vi twoway_type t i)
        ∙ ap (λ m. head_bytes twoway_type t i ++ answer t m) left))

-- What `_CheckReply` makes of a reply, and what it leaves to read.
pub check_reply-head :
    (c : BaseScClient) (r : Buffer) (way t i : ℕ) (rest : List ℕ)
    → IsValid r
    → way < 2 ^ 32
    → t < 2 ^ 32
    → i < 2 ^ 32
    → contents r ≡ head_bytes way t i ++ rest
    → (b : Buffer) × (check_reply c (some r) ≡ (some b, i == c.packidx)) × (contents b ≡ rest)
unfolding check_reply
check_reply-head c r way t i rest v hw ht hi e =
    let (head, left, ok) = read_head-front way t i rest v hw ht hi e in
    ((read_head r).0, rw head refl, left)

-- The bytes of a request.
pub contents-fill_request :
    (way t : ℕ) (msg : List ℕ) (c : BaseScClient)
    → IsValid c.request
    → length msg + 2 ^ 13 < 2 ^ 32
    → contents (fill_request way t msg c).request ≡ head_bytes way t (add32 c.packidx 1) ++ msg
unfolding fill_request
contents-fill_request way t msg c v room =
    let i = (c.packidx + 1) % 2 ^ 32 in
    let w = echoed c.request v way t i in
    contents-write msg w.valid (omega (arith, pos-echoed c.request v way t i))
    ∙ ap (λ xs. xs ++ msg) (contents-echoed c.request v way t i)

-- For a dealer that appends its answer, a valid client and server: if the two-way request that
-- _FillRequest makes, of a message below about 2 ^ 32 bytes and a type below 2 ^ 32, reaches the
-- server whole and what the server sends reaches the client whole, then _CheckReply accepts the
-- reply and leaves exactly the answer to read.
pub check_reply-fill_request :
    (h : Handler) (answer : ℕ → List ℕ → List ℕ) (c : BaseScClient) (t : ℕ) (msg : List ℕ)
    (info b r : Buffer)
    → Answers h answer
    → IsValid c.request
    → length msg + 2 ^ 13 < 2 ^ 32
    → t < 2 ^ 32
    → IsValid info
    → IsValid b
    → contents b ≡ contents (fill_request twoway_type t msg c).request
    → IsValid r
    → (on_receive_data (some h) info b).sent ≡ some (contents r)
    → (left : Buffer) × (check_reply (fill_request twoway_type t msg c) (some r)
        ≡ (some left, true))
      × (contents left ≡ answer t msg)
check_reply-fill_request h answer c t msg info b r answers v room ht vi vb arrives vr replied =
    let i = add32 c.packidx 1 in
    let e =
      on_receive_data-twoway h answer info b t i msg answers vi vb ht (omega arith)
        (arrives ∙ contents-fill_request twoway_type t msg c v room) in
    let bytes : contents r ≡ head_bytes twoway_type t i ++ answer t msg =
      ap (λ o. elim o [ none ↦ [] | some xs ↦ xs ]) (sym replied ∙ e) in
    let c' = fill_request twoway_type t msg c in
    let (left, checked, rest) =
      check_reply-head c' r twoway_type t i (answer t msg) vr (omega arith) ht (omega arith)
        bytes in
    let same : (i == c'.packidx) ≡ true = unfold fill_request in ==_refl i in
    (left, checked ∙ ap (λ k. (some left, k)) same, rest)

-- A reply that carries the index of the call before is refused by the next call of the same
-- client.
check_reply-stale :
    (c : BaseScClient) (way t : ℕ) (msg : List ℕ) (r : Buffer) (way' t' : ℕ) (rest : List ℕ)
    → c.packidx < 2 ^ 32
    → IsValid r
    → way' < 2 ^ 32
    → t' < 2 ^ 32
    → contents r ≡ head_bytes way' t' c.packidx ++ rest
    → (check_reply (fill_request way t msg c) (some r)).1 ≡ false
check_reply-stale c way t msg r way' t' rest small v hw ht e =
    let (left, checked, same) =
      check_reply-head (fill_request way t msg c) r way' t' c.packidx rest v hw ht small e in
    ap (λ (out : Option Buffer × Bool). out.1) checked
    ∙ unfold fill_request in ne_== c.packidx (add32 c.packidx 1) (λ k. absurd (omega arith))
