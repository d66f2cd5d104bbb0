-- ===== src/Netio/Http/Base/Head.antt =====
-- What `_ParseHead` (netio/httpmsg.hpp) takes of a chunk, and that it ends.
use netlib.Common.{
  ℕ, zero, suc, ◌+◌, ◌^◌, ◌≤◌, ◌<◌, ◌≡◌, refl, ap, subst, inl, inr, Bool, ◌&&◌, List, [], ◌∷◌,
  arith, ◌==◌, Bool-cases, length, length-drop, take, drop,
}
use netlib.Base.Buffer.{Buffer, write}
use netlib.Base.Buffer.Valid.{IsValid}
use netlib.Netio.Http.Scan.Bounds.{parse2-length, parse2-pos}
use netlib.Netio.Http.Base.{
  BaseMsg, in_body, unknown_size, cut_line, note_cr, HeadLine, blank, header_line, unfinished,
  end_line, head_line, after_line, parse_head,
}
use netlib.Netio.Http.Base.Consumed.{is_late, unsized, Took, Tame, add_taken-Tame, written-Took}
use netlib.Netio.Http.Base.Body.{nothing-Took, parse_body-Tame}

-- How a line's end is looked for.
pub cut_line-length : (a : Bool) (c : ℕ) (cs : List ℕ) → (cut_line a (c ∷ cs)).1.1 ≤ length (c ∷ cs)
unfolding cut_line
cut_line-length a c cs = elim (Bool-cases (a && (c == 10))) [
  | inl e ↦ rw e (omega arith)
  | inr e ↦ rw e (parse2-length 13 10 c cs)
]

cut_line-pos : (a : Bool) (c : ℕ) (cs : List ℕ) → 0 < (cut_line a (c ∷ cs)).1.1
unfolding cut_line
cut_line-pos a c cs = elim (Bool-cases (a && (c == 10))) [
  | inl e ↦ rw e (omega arith)
  | inr e ↦ rw e (parse2-pos 13 10 c cs)
]

pub note_cr-keeps :
    (m : BaseMsg) → ((note_cr m).buffer ≡ m.buffer) × ((note_cr m).bodysize ≡ m.bodysize)
unfolding note_cr
note_cr-keeps m = ground arith

-- What a round of `_ParseHead` keeps; `b` and `z` are the buffer and the size it ends with.
abbrev Ends : Buffer → ℕ → ℕ → HeadLine → Type 0
Ends b z n (blank m k) = (m.buffer ≡ b) × (m.bodysize ≡ z) × (k ≡ n) × (m.flag ≡ in_body)
Ends b z n (header_line m k) = (m.buffer ≡ b) × (m.bodysize ≡ z) × (k ≡ n)
Ends b z n (unfinished m k) = (m.buffer ≡ b) × (m.bodysize ≡ z) × (k ≡ n)

end_line-Ends : (m : BaseMsg) (n : ℕ) → Ends m.buffer m.bodysize n (end_line m n)
unfolding end_line
end_line-Ends m n = elim (Bool-cases (m.header2.beg + 2 == m.buffer.pos)) [
  | inl e ↦ rw e (refl, refl, refl, refl)
  | inr e ↦ rw e (refl, refl, refl)
]

head_line-Ends :
    (m : BaseMsg) (buf : List ℕ)
    → Ends
        (write m.buffer (take (cut_line m.assistflag buf).1.1 buf))
        m.bodysize
        (cut_line m.assistflag buf).1.1
        (head_line m buf)
unfolding head_line
head_line-Ends m buf = elim (Bool-cases (cut_line m.assistflag buf).1.0) [
  | inl e ↦ rw e (end_line-Ends _ _)
  | inr e ↦ rw e (let (b, z) = note_cr-keeps _ in (b, z, refl))
]

-- One line on: what `head_line` ends with, and the rest.
after_line-Tame :
    (fuel : ℕ) (b : Buffer) (buf : List ℕ) (n : ℕ) (b' : Buffer) (l : HeadLine)
    → ((m1 : BaseMsg) → m1.buffer ≡ b' → m1.bodysize ≡ unknown_size → Took b buf m1 n)
    → ((m1 : BaseMsg)
        → m1.buffer ≡ b'
        → m1.bodysize ≡ unknown_size
        → Tame m1.buffer (drop n buf) (parse_head fuel m1 (drop n buf)))
    → b.pos + length buf + 1024 < 2 ^ 31
    → Ends b' unknown_size n l
    → Tame b buf (after_line (parse_head fuel) buf l)
after_line-Tame fuel b buf n b' (blank m1 k) took again room (e, z, same, late) =
    let t = took m1 e z in
    rw same (
      add_taken-Tame t _ (
        parse_body-Tame m1 (drop n buf) t.valid
          (omega (arith, t.pos_moved, t.within, length-drop n buf)) (ap is_late late) (unsized z)))
after_line-Tame fuel b buf n b' (header_line m1 k) took again room (e, z, same) =
    rw same (add_taken-Tame (took m1 e z) _ (again m1 e z))
after_line-Tame fuel b buf n b' (unfinished m1 k) took again room (e, z, same) =
    rw same (took m1 e z)

-- `_ParseHead` ends, and takes no more of the chunk than there is, or meets a bad size.
pub parse_head-Tame :
    (fuel : ℕ) (m : BaseMsg) (buf : List ℕ)
    → length buf < fuel
    → IsValid m.buffer
    → m.buffer.pos + length buf + 1024 < 2 ^ 31
    → m.bodysize ≡ unknown_size
    → Tame m.buffer buf (parse_head fuel m buf)
unfolding parse_head
parse_head-Tame zero m buf h v room z = absurd (omega arith)
parse_head-Tame (suc fuel) m [] h v room z = nothing-Took m [] v room (unsized z)
parse_head-Tame (suc fuel) m (c ∷ cs) h v room z =
    let buf = c ∷ cs in
    let n = (cut_line m.assistflag buf).1.1 in
    let some_taken = cut_line-pos m.assistflag c cs in
    let took : (m1 : BaseMsg)
        → m1.buffer ≡ write m.buffer (take n buf)
        → m1.bodysize ≡ unknown_size
        → Took m.buffer buf m1 n =
      λ m1 e k. written-Took m buf v room n m1 (cut_line-length m.assistflag c cs) e (unsized k) in
    after_line-Tame fuel m.buffer buf n _ (head_line m buf) took
      (λ m1 e k.
        let t = took m1 e k in
        parse_head-Tame fuel m1 (drop n buf) (omega (arith, length-drop n buf)) t.valid
          (omega (arith, t.pos_moved, t.within, length-drop n buf)) k)
      room
      (subst (λ k. Ends (write m.buffer (take n buf)) k n (head_line m buf)) z
        (head_line-Ends m buf))
