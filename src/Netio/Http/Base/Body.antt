-- ===== src/Netio/Http/Base/Body.antt =====
-- What `_ParseBody` (netio/httpmsg.hpp) takes of a chunk.
use netlib.Common.{
  ℕ, ◌+◌, ◌-◌, ◌^◌, ◌≤◌, ◌<◌, ◌≡◌, ◌≢◌, refl, sym, ap, subst, ◌∙◌, inl, inr, true, false, Option,
  none, some, List, [], ◌∷◌, append-nil, arith, ltb, ◌==◌, Bool-cases, ltb→le, ltb→lt, lt→ltb,
  le→ltb, ==_ne, length, length-take, take, sub32, take-all,
}
use native.Mathlib.Decide.{dec_lt}
use netlib.Base.Buffer.{Buffer, write, contents}
use netlib.Base.Buffer.Valid.{IsValid, write-Wrote}
use netlib.Netio.Http.ContentLength.{check_content_len-IsWord, IsWord}
use netlib.Netio.Http.Base.{
  BaseMsg, over, is_over, unknown_size, undefined, start_body, start_sized, then_take, header_size,
  int_gtb, end_body, take_body, parse_body,
}
use netlib.Netio.Http.Base.Consumed.{
  Sized, is_late, unsized, empty, sized, Took, IsBad, BadSize, Tame, written-Took, room_take,
}

end_body-keeps :
    (m : BaseMsg)
    → ((end_body m).buffer ≡ m.buffer)
      × ((end_body m).bodysize ≡ m.bodysize)
      × ((end_body m).body.beg ≡ m.body.beg)
      × ((end_body m).flag ≡ m.flag)
unfolding end_body
end_body-keeps m = elim (Bool-cases (is_over m.flag)) [
  | inl e ↦ rw e (refl, refl, refl, refl)
  | inr e ↦ rw e (refl, refl, refl, refl)
]

-- The size of the message is known by now.
size_pattern : BaseMsg → ℕ
size_pattern m = sub32 m.bodysize (sub32 m.buffer.pos m.body.beg)

module _ (m : BaseMsg) (buf : List ℕ) (v : IsValid m.buffer)
    (room : m.buffer.pos + length buf + 1024 < 2 ^ 31) where
  -- Nothing is taken.
  pub nothing-Took : Sized m → Took m.buffer buf m 0
  nothing-Took z = record {
    within = omega arith;
    valid = v;
    bytes = sym (append-nil (contents m.buffer));
    pos_moved = omega arith;
    size_ok = z;
  }

  -- The first `n` bytes belong to a body that has `m.bodysize` of them.
  body-Took :
      (n : ℕ) (m1 : BaseMsg)
      → n ≤ length buf
      → m1.buffer ≡ write m.buffer (take n buf)
      → m1.bodysize ≡ m.bodysize
      → m1.body.beg ≡ m.body.beg
      → m.body.beg ≤ m.buffer.pos
      → m.buffer.pos - m.body.beg + n ≤ m.bodysize
      → m.bodysize < 2 ^ 31
      → is_late m1.flag ≡ true
      → Took m.buffer buf (end_body m1) n
  body-Took n m1 h e z g lo hi small late =
      let (e', z', g', f') = end_body-keeps m1 in
      let w = write-Wrote (take n buf) v (room_take m buf v room n) in
      let p = ap (λ (b : Buffer). b.pos) (e' ∙ e) in
      written-Took m buf v room n (end_body m1) h (e' ∙ e) (
        sized (omega (arith, p, w.pos_moved, g', g))
          (omega (arith, p, w.pos_moved, g', g, z', z, length-take n buf)) (omega (arith, z', z))
          (ap is_late f' ∙ late))

  take_body-Tame : Sized m → m.bodysize ≢ unknown_size → Tame m.buffer buf (take_body m buf)
  unfolding take_body
  take_body-Tame (unsized e) n = absurd (n e)
  take_body-Tame (empty e late) n = rw (ap (λ z. z == 0) e) (nothing-Took (empty e late))
  take_body-Tame (sized lo hi small late) n =
      let beg = m.body.beg in
      let pos = m.buffer.pos in
      let size = m.bodysize in
      let left : sub32 size (sub32 pos beg) ≡ size - (pos - beg) = omega (arith, v.fits, v.word) in
      elim (Bool-cases (size == 0)) [
        | inl e ↦ rw e (nothing-Took (sized lo hi small late))
        | inr e ↦ elim (Bool-cases (int_gtb (sub32 size (sub32 pos beg)) (length buf))) [
          | inl more ↦
              rw (e, more)
                (body-Took (length buf) _ (omega arith)
                  (ap (write m.buffer) (sym (take-all (length buf) buf (omega arith)))) refl refl lo
                  (omega (arith, left, ltb→lt _ _ more)) small late)
          | inr less ↦
              let fits : ltb (length buf) (sub32 size (sub32 pos beg)) ≡ false =
                le→ltb _ _ (omega (arith, left, ltb→le _ _ less)) in
              rw (e, less, fits)
                (body-Took _ _ (omega (arith, left, ltb→le _ _ less)) refl refl refl lo
                  (omega (arith, left)) small refl)
        ]
      ]

module _ (m : BaseMsg) (c : ℕ) (cs : List ℕ) (v : IsValid m.buffer)
    (room : m.buffer.pos + length (c ∷ cs) + 1024 < 2 ^ 31) where
  bad_size : IsBad (header_size m) → BadSize m.buffer (c ∷ cs)
  bad_size bad = record {
    msg = m;
    taken = 0;
    some_of = omega arith;
    front = sym (append-nil (contents m.buffer));
    announced = bad;
  }

  -- A size that is negative as an `int` makes `Write` run over.
  huge :
      (n : ℕ) (m1 : BaseMsg)
      → m1 ≡ record m { bodysize = n; body = record m.body { beg = m.buffer.pos } }
      → 2 ^ 31 ≤ n
      → n < 2 ^ 32
      → take_body m1 (c ∷ cs) ≡ undefined
  unfolding take_body
  huge n m1 e big word =
      let len = length (c ∷ cs) in
      let left : sub32 n (sub32 m.buffer.pos m.buffer.pos) ≡ n = omega (arith, v.fits, v.word) in
      let some_body : (n == 0) ≡ false = ground arith in
      let negative : int_gtb (sub32 n (sub32 m.buffer.pos m.buffer.pos)) len ≡ false =
        le→ltb _ _ (omega (arith, left)) in
      let over_run : ltb len (sub32 n (sub32 m.buffer.pos m.buffer.pos)) ≡ true =
        lt→ltb _ _ (omega (arith, left)) in
      ap (λ t. take_body t (c ∷ cs)) e ∙ rw (some_body, negative, over_run) refl

  start_sized-Tame :
      is_late m.flag ≡ true
      → (r : Option ℕ) → header_size m ≡ r
      → IsWord r
      → Tame m.buffer (c ∷ cs) (then_take (c ∷ cs) (start_sized m r))
  start_sized-Tame late none e w = bad_size (subst IsBad (sym e) (omega arith))
  start_sized-Tame late (some n) e w = elim (Bool-cases (n == 0)) [
    | inl z ↦ rw z (
        take_body-Tame (record m { bodysize = 0; flag = over }) (c ∷ cs) v room (empty refl refl)
          (λ k. absurd (omega arith)))
    | inr z ↦ rw z (elim (dec_lt n (2 ^ 31)) [
      | yes small ↦
          take_body-Tame (record m { bodysize = n; body = record m.body { beg = m.buffer.pos } })
            (c ∷ cs) v room (sized (omega arith) (omega arith) small late)
            (λ k. absurd (omega arith))
      | no big ↦ rw (huge n _ refl (omega arith) w) (bad_size (subst IsBad (sym e) (omega arith)))
    ])
  ]

  parse_body-cons : is_late m.flag ≡ true → Sized m → Tame m.buffer (c ∷ cs) (parse_body m (c ∷ cs))
  unfolding parse_body start_body
  parse_body-cons late z = elim (Bool-cases (m.bodysize == unknown_size)) [
    | inl e ↦ rw e (start_sized-Tame late (header_size m) refl (check_content_len-IsWord _))
    | inr e ↦ rw e (take_body-Tame m (c ∷ cs) v room z (==_ne e))
  ]

-- `_ParseBody` takes no more of the chunk than the body has left, or meets a bad size.
pub parse_body-Tame :
    (m : BaseMsg) (buf : List ℕ)
    → IsValid m.buffer
    → m.buffer.pos + length buf + 1024 < 2 ^ 31
    → is_late m.flag ≡ true
    → Sized m
    → Tame m.buffer buf (parse_body m buf)
unfolding parse_body
parse_body-Tame m [] v room late z = nothing-Took m [] v room z
parse_body-Tame m (c ∷ cs) v room late z = unfold parse_body in parse_body-cons m c cs v room late z
