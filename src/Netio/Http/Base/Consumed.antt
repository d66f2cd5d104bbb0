-- ===== src/Netio/Http/Base/Consumed.antt =====
-- What a parsing step (netio/httpmsg.hpp) may do with a chunk.
use netlib.Common.{
  ℕ, zero, suc, ◌+◌, ◌-◌, ◌^◌, ◌≤◌, ◌<◌, ◌≡◌, refl, sym, ap, ◌∙◌, Bool, true, false, Option, none,
  some, List, [], ◌∷◌, ◌++◌, append_assoc, arith, length, length-take, length-drop, take, drop,
  take-all,
}
use netlib.Base.Buffer.{Buffer, write, contents}
use netlib.Base.Buffer.Valid.{IsValid, write-Wrote, contents-write}
use netlib.Netio.Http.Base.{
  BaseMsg, Stage, in_body, over, unknown_size, Parsed, done, undefined, no_fuel, add_taken, lift,
  header_size,
}

-- The stages in which `_ParseBody` may have looked the size up.
abbrev pub is_late : Stage → Bool
is_late in_body = true
is_late over = true
is_late _ = false

-- What is known of `_bodysize`: nothing yet, an empty body, or a size that is not passed.
pub data Sized (m : BaseMsg) : Type 0 where
  unsized : m.bodysize ≡ unknown_size → Sized m
  empty : m.bodysize ≡ 0 → is_late m.flag ≡ true → Sized m
  sized :
      m.body.beg ≤ m.buffer.pos
      → m.buffer.pos - m.body.beg ≤ m.bodysize
      → m.bodysize < 2 ^ 31
      → is_late m.flag ≡ true
      → Sized m

pub record Took (b : Buffer) (buf : List ℕ) (m' : BaseMsg) (n : ℕ) : Type 0 where
  pub within : n ≤ length buf
  pub valid : IsValid m'.buffer
  pub bytes : contents m'.buffer ≡ contents b ++ take n buf
  pub pos_moved : m'.buffer.pos ≡ b.pos + n
  pub size_ok : Sized m'

-- A size that is too long for `pbuf`, or negative as an `int`.
abbrev pub IsBad : Option ℕ → Type 0
IsBad none = Unit {0}
IsBad (some n) = 2 ^ 31 ≤ n

-- A message that has taken `taken` bytes and whose header lines announce a bad size.
pub record BadSize (b : Buffer) (buf : List ℕ) : Type 0 where
  pub msg : BaseMsg
  pub taken : ℕ
  pub some_of : taken ≤ length buf
  pub front : contents msg.buffer ≡ contents b ++ take taken buf
  pub announced : IsBad (header_size msg)

-- A result that takes what it says, or met a bad size; never one that ran out of fuel.
abbrev pub Tame : Buffer → List ℕ → Parsed BaseMsg → Type 0
Tame b buf (done m' n) = Took b buf m' n
Tame b buf undefined = BadSize b buf
Tame b buf no_fuel = ⊥

take-append-take-drop : (n k : ℕ) (xs : List ℕ) → take n xs ++ take k (drop n xs) ≡ take (n + k) xs
take-append-take-drop zero k xs = let e : k ≡ 0 + k = omega arith in ap (λ j. take j xs) e
take-append-take-drop (suc n) zero [] = sym (take-all (suc n + 0) [] (omega arith))
take-append-take-drop (suc n) (suc k) [] = sym (take-all (suc n + suc k) [] (omega arith))
take-append-take-drop (suc n) k (x ∷ xs) =
    let e : suc (n + k) ≡ suc n + k = omega arith in
    ap (◌∷◌ x) (take-append-take-drop n k xs) ∙ ap (λ j. take j (x ∷ xs)) e

module _ {b : Buffer} {m1 : BaseMsg} {buf : List ℕ} {n1 : ℕ} (t : Took b buf m1 n1) where
  bytes_on :
      (k : ℕ) → (contents m1.buffer ++ take k (drop n1 buf)) ≡ contents b ++ take (n1 + k) buf
  bytes_on k =
      ap (λ cs. cs ++ take k (drop n1 buf)) t.bytes
      ∙ append_assoc (contents b) (take n1 buf) (take k (drop n1 buf))
      ∙ ap (◌++◌ (contents b)) (take-append-take-drop n1 k buf)

  -- One step after another.
  pub add_taken-Tame :
      (r : Parsed BaseMsg) → Tame m1.buffer (drop n1 buf) r → Tame b buf (add_taken n1 r)
  add_taken-Tame (done m' k) u = record {
    within = omega (arith, u.within, t.within, length-drop n1 buf);
    valid = u.valid;
    bytes = u.bytes ∙ bytes_on k;
    pos_moved = omega (arith, u.pos_moved, t.pos_moved);
    size_ok = u.size_ok;
  }
  add_taken-Tame undefined u = record {
    msg = u.msg;
    taken = n1 + u.taken;
    some_of = omega (arith, u.some_of, t.within, length-drop n1 buf);
    front = u.front ∙ bytes_on u.taken;
    announced = u.announced;
  }
  add_taken-Tame no_fuel u = absurd u

-- Writing the first bytes of the chunk.
module _ (m : BaseMsg) (buf : List ℕ) (v : IsValid m.buffer)
    (room : m.buffer.pos + length buf + 1024 < 2 ^ 31) where
  pub room_take : (n : ℕ) → m.buffer.pos + length (take n buf) + 1024 < 2 ^ 32
  room_take n = omega (arith, length-take n buf)

  pub written-Took :
      (n : ℕ) (m' : BaseMsg)
      → n ≤ length buf
      → m'.buffer ≡ write m.buffer (take n buf)
      → Sized m'
      → Took m.buffer buf m' n
  written-Took n m' h e z =
      let w = write-Wrote (take n buf) v (room_take n) in
      record {
        within = h;
        valid = rw e w.valid;
        bytes = ap (λ b. contents b) e ∙ contents-write (take n buf) v (room_take n);
        pos_moved = ap (λ (b : Buffer). b.pos) e ∙ omega (arith, w.pos_moved, length-take n buf);
        size_ok = z;
      }

-- A message before its body has no size yet.
pub Sized-early : {m : BaseMsg} → Sized m → is_late m.flag ≡ false → m.bodysize ≡ unknown_size
Sized-early (unsized e) h = e
Sized-early (empty e late) h = cc
Sized-early (sized lo hi small late) h = cc

-- The base of a result.
abbrev pub base_of : {M : Type 0} → (M → BaseMsg) → Parsed M → Parsed BaseMsg
base_of f (done m n) = done (f m) n
base_of f undefined = undefined
base_of f no_fuel = no_fuel

pub base_of-add_taken :
    {M : Type 0} (f : M → BaseMsg) (n : ℕ) (r : Parsed M)
    → base_of f (add_taken n r) ≡ add_taken n (base_of f r)
base_of-add_taken f n (done m k) = refl
base_of-add_taken f n undefined = refl
base_of-add_taken f n no_fuel = refl

pub base_of-lift :
    {M : Type 0} (f : M → BaseMsg) (g : BaseMsg → M) (r : Parsed BaseMsg)
    → ((b : BaseMsg) → f (g b) ≡ b)
    → base_of f (lift g r) ≡ r
base_of-lift f g (done m k) h = ap (λ b. done b k) (h m)
base_of-lift f g undefined h = refl
base_of-lift f g no_fuel h = refl
