-- ===== src/Netio/Writer/Try.antt =====
-- `_TrySendData` (netio/tsocket_impl.hpp) when no write is outstanding: which bytes it moves, and
-- how it ends.
use netlib.Common.{
  ◌*◌, ◌<◌, ◌≡◌, refl, sym, ap, ◌∙◌, ◌⊎◌, inl, inr, Bool, true, false, List, [], ◌∷◌, ◌++◌,
  append-nil, arith, leb, ltb, ◌==◌, if◌then◌else◌, Bool-cases, ltb→le, ltb→lt, ==_iff, length,
}
use native.Mathlib.Decide.{dec_lt}
use netlib.Base.Buffer.{Buffer, new, clear, length_of, swap, contents}
use netlib.Base.Buffer.Valid.{IsValid, new-IsValid, clear-IsValid, length_of-lem, length-contents}
use netlib.Netio.Writer.{Socket, close, refill, post_send, try_send_data}
use netlib.Netio.Writer.Valid.{
  Queued, pending, posted, post_close-Queued, pending-post_close, post_close-closed,
}

nil_of_length : {A : Type 0} (xs : List A) → length xs ≡ 0 → xs ≡ []
nil_of_length [] h = refl
nil_of_length (x ∷ xs) h = absurd (omega arith)

-- What `refill` makes of a socket: the same bytes, and nothing in the second buffer unless there
-- is something in the first.
record Refilled (s s' : Socket) : Type 0 where
  queued : Queued s'
  kept : pending s' ≡ pending s
  ready : (0 < length_of s'.msgbuffer1) ⊎ (pending s' ≡ [])
  flag : s'.flag ≡ s.flag
  writing : s'.writing ≡ s.writing
  requests : s'.requests ≡ s.requests

contents-nil : {b : Buffer} → IsValid b → length_of b ≡ 0 → contents b ≡ []
contents-nil {b} v h =
    nil_of_length (contents b) (omega (arith, length-contents v, length_of-lem v))

if-IsValid : (c : Bool) {b : Buffer} → IsValid b → IsValid (if c then new else b)
if-IsValid true v = new-IsValid
if-IsValid false v = v

module _ (s : Socket) (q : Queued s) where
  -- `msgbuffer1` is empty: the queue becomes `msgbuffer1`, and a fresh or cleared buffer the queue.
  taken_over :
      (b : Buffer)
      → IsValid b
      → length_of s.msgbuffer1 ≡ 0
      → Refilled s (record s { msgbuffer1 = s.msgbuffer2; msgbuffer2 = clear b })
  unfolding clear
  taken_over b v none_left = record {
    queued = record {
      valid1 = q.valid2;
      valid2 = unfold clear in clear-IsValid v;
      unread2 = refl;
      small1 = q.small2;
      small2 = omega arith;
    };
    kept =
        append-nil (contents s.msgbuffer2)
        ∙ ap (λ cs. cs ++ contents s.msgbuffer2) (sym (contents-nil q.valid1 none_left));
    ready = elim (dec_lt 0 (length_of s.msgbuffer2)) [
      | yes p ↦ inl p
      | no p ↦ inr (append-nil _ ∙ contents-nil q.valid2 (omega arith))
    ];
    flag = refl;
    writing = refl;
    requests = refl;
  }

  refill-Refilled : Refilled s (refill s)
  unfolding refill swap
  refill-Refilled = elim (Bool-cases (length_of s.msgbuffer1 == 0)) [
    | inl none_left ↦ rw none_left (
        taken_over _ (if-IsValid (leb (1024 * 1024) s.msgbuffer1.size) q.valid1)
          ((==_iff _ _).0 none_left))
    | inr some_left ↦ rw some_left (record {
      queued = q;
      kept = refl;
      ready = inl (ground arith);
      flag = refl;
      writing = refl;
      requests = refl;
    })
  ]

-- What `_TrySendData` does when no write is outstanding.
pub data Outcome (s s' : Socket) (r : Bool) : Type 0 where
  sent :
      r ≡ true
      → s'.writing ≡ true
      → s'.flag ≡ s.flag
      → posted s'.requests ≡ contents s'.msgbuffer1
      → 0 < length_of s'.msgbuffer1
      → Outcome s s' r
  failed : r ≡ false → s'.writing ≡ false → s'.flag ≡ close → Outcome s s' r
  nothing : r ≡ false → s'.writing ≡ false → s'.flag ≡ s.flag → pending s' ≡ [] → Outcome s s' r

pub record Tried (s : Socket) (out : Socket × Bool) : Type 0 where
  pub queued : Queued out.0
  pub kept : pending out.0 ≡ pending s
  pub outcome : Outcome s out.0 out.1

post_send-Tried :
    (f : Bool) (s s1 : Socket) → Refilled s s1 → s.writing ≡ false → Tried s (post_send f s1)
unfolding post_send
post_send-Tried f s s1 t w = elim (Bool-cases (ltb 0 (length_of s1.msgbuffer1))) [
  | inl some_left ↦ elim (Bool-cases f) [
    | inl bad ↦
        rw (some_left, bad)
          (record {
            queued = post_close-Queued t.queued;
            kept = pending-post_close s1 ∙ t.kept;
            outcome =
                let (shut, quiet) = post_close-closed s1 (t.writing ∙ w) in failed refl quiet shut;
          })
    | inr good ↦
        rw (some_left, good)
          (record {
            queued = record {
              valid1 = t.queued.valid1;
              valid2 = t.queued.valid2;
              unread2 = t.queued.unread2;
              small1 = t.queued.small1;
              small2 = t.queued.small2;
            };
            kept = t.kept;
            outcome = sent refl refl t.flag refl (ltb→lt _ _ some_left);
          })
  ]
  | inr none_left ↦ rw none_left (record {
    queued = t.queued;
    kept = t.kept;
    outcome =
        nothing refl (t.writing ∙ w) t.flag (elim t.ready [
          | inl some_left ↦ absurd (omega (arith, ltb→le _ _ none_left))
          | inr e ↦ e
        ]);
  })
]

pub try_send_data-Tried :
    (f : Bool) (s : Socket) → Queued s → s.writing ≡ false → Tried s (try_send_data f s)
unfolding try_send_data
try_send_data-Tried f s q w =
    let e : try_send_data f s ≡ post_send f (refill s) =
      ap (λ b. if b then (s, true) else post_send f (refill s)) w in
    rw e (post_send-Tried f s (refill s) (refill-Refilled s q) w)

pub try_send_data-writing :
    (f : Bool) (s : Socket) → s.writing ≡ true → try_send_data f s ≡ (s, true)
unfolding try_send_data
try_send_data-writing f s w = rw w
