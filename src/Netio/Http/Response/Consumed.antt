-- ===== src/Netio/Http/Response/Consumed.antt =====
-- What `HttpCliRecvMsg::Parse` (netio/httpmsg.hpp) takes of a chunk, at any stage.
use netlib.Common.{
  ℕ, suc, ◌+◌, ◌^◌, ◌<◌, ◌≡◌, refl, sym, ap, ◌∙◌, inl, inr, List, [], ◌∷◌, arith, Bool-cases,
  length, take, drop, length-drop, subst,
}
use netlib.Base.Buffer.{Buffer, write}
use netlib.Base.Buffer.Valid.{IsValid}
use netlib.Netio.Http.Scan.{parse1}
use netlib.Netio.Http.Scan.Bounds.{parse1-length}
use netlib.Netio.Http.Base.{
  BaseMsg, Stage, in_method, in_url, in_ver, in_status_code, in_status_phrase, in_head, in_body,
  over, unknown_size, Parsed, add_taken, lift, cut_line,
}
use netlib.Netio.Http.Base.Consumed.{
  Sized, unsized, is_late, Took, Tame, base_of, base_of-add_taken, base_of-lift, add_taken-Tame,
  written-Took, Sized-early,
}
use netlib.Netio.Http.Base.Body.{nothing-Took, parse_body-Tame}
use netlib.Netio.Http.Base.Head.{cut_line-length, note_cr-keeps, parse_head-Tame}
use netlib.Netio.Http.Response.{
  Response, parse_version, parse_statuscode, parse_statusphrase, parse_at, parse, at_head,
  at_statuscode, at_statusphrase, head_on,
}

-- The part of a result that `HttpBaseMsg` holds.
abbrev pub lower : Parsed Response → Parsed BaseMsg
lower = base_of (λ (m : Response). m.base)

lowered :
    (m : Response) (b : Buffer) (buf : List ℕ) (r : Parsed BaseMsg)
    → Tame b buf r
    → Tame b buf (lower (lift (λ b'. record m { base = b' }) r))
lowered m b buf r t =
    subst (Tame b buf) (sym (base_of-lift (λ (q : Response). q.base) _ r (λ b'. refl))) t

-- One part after another.
followed :
    {b : Buffer} {buf : List ℕ} {n : ℕ} {m1 : BaseMsg}
    → Took b buf m1 n
    → (r : Parsed Response) → Tame m1.buffer (drop n buf) (lower r)
    → Tame b buf (lower (add_taken n r))
followed {b} {buf} {n} t r u =
    subst (Tame b buf) (sym (base_of-add_taken (λ (q : Response). q.base) n r))
      (add_taken-Tame t (lower r) u)

statusphrase-Tame :
    (m : Response) (buf : List ℕ)
    → IsValid m.base.buffer
    → m.base.buffer.pos + length buf + 1024 < 2 ^ 31
    → m.base.bodysize ≡ unknown_size
    → Tame m.base.buffer buf (lower (parse_statusphrase m buf))
unfolding parse_statusphrase
statusphrase-Tame m [] v room z = nothing-Took m.base [] v room (unsized z)
statusphrase-Tame m (c ∷ cs) v room z =
    let buf = c ∷ cs in
    let fits = cut_line-length m.base.assistflag c cs in
    let n = (cut_line m.base.assistflag buf).1.1 in
    let took : (b : BaseMsg)
        → b.buffer ≡ write m.base.buffer (take n buf)
        → b.bodysize ≡ m.base.bodysize
        → Took m.base.buffer buf b n =
      λ b e k. written-Took m.base buf v room n b fits e (unsized (k ∙ z)) in
    elim (Bool-cases (cut_line m.base.assistflag buf).1.0) [
      | inl hit ↦
          let t = took (at_head m n buf).base refl refl in
          rw hit (
            followed t (head_on (at_head m n buf) (drop n buf)) (
              lowered (at_head m n buf) _ (drop n buf) _ (
                parse_head-Tame _ _ (drop n buf) (omega (arith, length-drop n buf)) t.valid
                  (omega (arith, t.pos_moved, t.within, length-drop n buf)) z)))
      | inr missed ↦ rw missed (let (e, k) = note_cr-keeps _ in took _ e k)
    ]

-- After a blank: what was taken, and the rest.
word-Took :
    (m : Response) (buf : List ℕ) (b : BaseMsg)
    → IsValid m.base.buffer
    → m.base.buffer.pos + length buf + 1024 < 2 ^ 31
    → b.buffer ≡ write m.base.buffer (take (parse1 32 buf).1 buf)
    → b.bodysize ≡ unknown_size
    → Took m.base.buffer buf b (parse1 32 buf).1
word-Took m buf b v room e z =
    written-Took m.base buf v room _ b (parse1-length 32 buf) e (unsized z)

statuscode-Tame :
    (m : Response) (buf : List ℕ)
    → IsValid m.base.buffer
    → m.base.buffer.pos + length buf + 1024 < 2 ^ 31
    → m.base.bodysize ≡ unknown_size
    → Tame m.base.buffer buf (lower (parse_statuscode m buf))
unfolding parse_statuscode
statuscode-Tame m [] v room z = nothing-Took m.base [] v room (unsized z)
statuscode-Tame m (c ∷ cs) v room z =
    let buf = c ∷ cs in
    let n = (parse1 32 buf).1 in
    elim (Bool-cases (parse1 32 buf).0) [
      | inl hit ↦
          let t = word-Took m buf (at_statusphrase m n buf).base v room refl z in
          rw hit (
            followed t (parse_statusphrase (at_statusphrase m n buf) (drop n buf)) (
              statusphrase-Tame (at_statusphrase m n buf) (drop n buf) t.valid
                (omega (arith, t.pos_moved, t.within, length-drop n buf)) z))
      | inr missed ↦ rw missed (word-Took m buf _ v room refl z)
    ]

version-Tame :
    (m : Response) (buf : List ℕ)
    → IsValid m.base.buffer
    → m.base.buffer.pos + length buf + 1024 < 2 ^ 31
    → m.base.bodysize ≡ unknown_size
    → Tame m.base.buffer buf (lower (parse_version m buf))
unfolding parse_version
version-Tame m buf v room z =
    let n = (parse1 32 buf).1 in
    elim (Bool-cases (parse1 32 buf).0) [
      | inl hit ↦
          let t = word-Took m buf (at_statuscode m n buf).base v room refl z in
          rw hit (
            followed t (parse_statuscode (at_statuscode m n buf) (drop n buf)) (
              statuscode-Tame (at_statuscode m n buf) (drop n buf) t.valid
                (omega (arith, t.pos_moved, t.within, length-drop n buf)) z))
      | inr missed ↦ rw missed (word-Took m buf _ v room refl z)
    ]

stage-Tame :
    (s : Stage) (m : Response) (buf : List ℕ)
    → s ≡ m.base.flag
    → IsValid m.base.buffer
    → m.base.buffer.pos + length buf + 1024 < 2 ^ 31
    → Sized m.base
    → Tame m.base.buffer buf (lower (parse_at s m buf))
stage-Tame in_ver m buf e v room z = version-Tame m buf v room (Sized-early z (sym (ap is_late e)))
stage-Tame in_status_code m buf e v room z =
    statuscode-Tame m buf v room (Sized-early z (sym (ap is_late e)))
stage-Tame in_status_phrase m buf e v room z =
    statusphrase-Tame m buf v room (Sized-early z (sym (ap is_late e)))
stage-Tame in_head m buf e v room z = lowered m m.base.buffer buf _ (
    parse_head-Tame (suc (length buf)) m.base buf (omega arith) v room
      (Sized-early z (sym (ap is_late e))))
stage-Tame in_body m buf e v room z =
    lowered m m.base.buffer buf _ (parse_body-Tame m.base buf v room (sym (ap is_late e)) z)
stage-Tame in_method m buf e v room z = nothing-Took m.base buf v room z
stage-Tame in_url m buf e v room z = nothing-Took m.base buf v room z
stage-Tame over m buf e v room z = nothing-Took m.base buf v room z

-- Parse of a response, at any stage, on a valid message with room below 2 ^ 31, ends; it takes no
-- more of the chunk than there is, what it takes is appended to the buffer as it is, and the
-- message stays valid; memory is overrun only if a message that has taken a front of the chunk
-- announces a Content-Length of more than ten characters or one that is negative as an int.
pub parse_response-Tame :
    (m : Response) (buf : List ℕ)
    → IsValid m.base.buffer
    → m.base.buffer.pos + length buf + 1024 < 2 ^ 31
    → Sized m.base
    → Tame m.base.buffer buf (lower (parse m buf))
unfolding parse
parse_response-Tame m buf v room z = stage-Tame m.base.flag m buf refl v room z
