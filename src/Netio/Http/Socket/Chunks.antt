-- ===== src/Netio/Http/Socket/Chunks.antt =====
-- `HttpBaseSocket::_CutMsgPack` (netio/hsocket_impl.hpp) hands every chunk on at once.
use netlib.Common.{
  ℕ, zero, suc, ◌+◌, ◌^◌, ◌<◌, ◌≤◌, ◌≡◌, refl, ap, ◌∙◌, inl, inr, List, [], ◌∷◌, ◌++◌, append-nil,
  arith, Bool-cases, length, take, drop, ◌==◌, length-drop, take-append-drop, take-all, flatten,
  map, sub32, le→leb, ==_iff, subst, drop-drop, pos-ne-zero, ==_ne,
}
use netlib.Base.Buffer.{Buffer, clear, contents}
use netlib.Base.Buffer.Valid.{IsValid, new-IsValid, clear-IsValid}
use netlib.Netio.Http.Scan.{parse1}
use netlib.Netio.Http.Scan.Bounds.{parse1-pos}
use netlib.Netio.Http.Base.{
  base_clear, in_method, unknown_size, Parsed, done, undefined, no_fuel, add_taken,
}
use netlib.Netio.Http.Base.Consumed.{unsized, BadSize, Tame}
use netlib.Netio.Http.Request.{Request, clear_request, new_request, parse, parse_method}
use netlib.Netio.Http.Request.Consumed.{lower, parse_request-Tame}
use netlib.Netio.Http.Socket.{HttpCut, finished, overrun, spent, notified, after_parse, cut_http}

-- A message that holds nothing yet.
pub record Fresh (m : Request) : Type 0 where
  pub valid : IsValid m.base.buffer
  pub none_written : m.base.buffer.pos ≡ 0
  pub none_read : m.base.buffer.offset ≡ 0
  pub at_start : m.base.flag ≡ in_method
  pub no_size : m.base.bodysize ≡ unknown_size

pub clear_request-Fresh : (m : Request) → IsValid m.base.buffer → Fresh (clear_request m)
unfolding clear_request base_clear clear
clear_request-Fresh m v = record {
  valid = unfold clear in clear-IsValid v;
  none_written = refl;
  none_read = refl;
  at_start = refl;
  no_size = refl;
}

pub new_request-Fresh : Fresh new_request
unfolding new_request
new_request-Fresh = clear_request-Fresh _ new-IsValid

contents-Fresh : {m : Request} → Fresh m → contents m.base.buffer ≡ []
contents-Fresh {m} f = rw (f.none_written, f.none_read) refl

-- The bytes of a message.
abbrev pub text : Request → List ℕ
text m = contents m.base.buffer

-- What a call may come to, given the chunk.
abbrev pub Handed : List ℕ → HttpCut → Type 0
Handed buf (finished r ms) = (flatten (map text ms) ≡ buf) × (0 < length ms) × Fresh r
Handed buf overrun = (b : Buffer) × (k : ℕ) × (contents b ≡ []) × BadSize b (drop k buf)
Handed buf spent = ⊥

-- A message that is begun takes a byte.
abbrev Moves : Parsed Request → Type 0
Moves (done m n) = 0 < n
Moves undefined = Unit {0}
Moves no_fuel = Unit {0}

add_taken-Moves : (n : ℕ) (r : Parsed Request) → 0 < n → Moves (add_taken n r)
add_taken-Moves n (done m k) h = omega arith
add_taken-Moves n undefined h = omega arith
add_taken-Moves n no_fuel h = omega arith

parse-Moves :
    (m : Request) (c : ℕ) (cs : List ℕ) → m.base.flag ≡ in_method → Moves (parse m (c ∷ cs))
unfolding parse parse_method
parse-Moves m c cs e = rw e (elim (Bool-cases (parse1 32 (c ∷ cs)).0) [
  | inl h ↦ rw h (add_taken-Moves _ _ (parse1-pos 32 c cs))
  | inr h ↦ rw h (parse1-pos 32 c cs)
])

notified-Handed :
    (m : Request) (buf : List ℕ) (n : ℕ) (c : HttpCut)
    → n ≤ length buf
    → text m ≡ take n buf
    → Handed (drop n buf) c
    → Handed buf (notified m c)
notified-Handed m buf n (finished r ms) h e (bytes, some_ms, f) = (
  ap (λ t. t ++ flatten (map text ms)) e ∙ ap (◌++◌ (take n buf)) bytes ∙ take-append-drop n buf,
  omega arith,
  f,
)
notified-Handed m buf n overrun h e (b, k, nil, bad) =
    (b, n + k, nil, subst (BadSize b) (drop-drop k n buf) bad)
notified-Handed m buf n spent h e u = absurd u

-- After `Parse`, with the next round on what is left.
after_parse-Handed :
    (again : Request → List ℕ → HttpCut) (m : Request) (buf : List ℕ)
    → Fresh m
    → length buf < 2 ^ 31
    → ((m1 : Request) (k : ℕ)
        → Fresh m1
        → 0 < k
        → k < length buf
        → Handed (drop k buf) (again m1 (drop k buf)))
    → (r : Parsed Request) → Tame m.base.buffer buf (lower r)
    → Moves r
    → Handed buf (after_parse again buf r)
after_parse-Handed again m buf f small next (done m1 n) t moves =
    let f1 = clear_request-Fresh m1 t.valid in
    let bytes = t.bytes ∙ ap (λ cs. cs ++ take n buf) (contents-Fresh f) in
    rw (pos-ne-zero n moves, le→leb n (length buf) t.within)
      (elim (Bool-cases (sub32 (length buf) n == 0)) [
        | inl all ↦
            let done_all : length buf ≤ n = omega (arith, t.within, (==_iff _ _).0 all) in
            rw all (append-nil _ ∙ bytes ∙ take-all n buf done_all, omega arith, f1)
        | inr more ↦ rw more (
            notified-Handed m1 buf n _ t.within bytes
              (next (clear_request m1) n f1 moves (omega (arith, t.within, ==_ne more))))
      ])
after_parse-Handed again m buf f small next undefined bad moves =
    (m.base.buffer, 0, contents-Fresh f, bad)
after_parse-Handed again m buf f small next no_fuel u moves = absurd u

-- From a fresh message, _CutMsgPack of an http socket on a non-empty chunk, with fuel above its
-- length, ends; it notifies at least one message, the bytes of the notified messages make up
-- exactly this chunk, and the reader is fresh again; or memory is overrun by a bad Content-Length
-- within the chunk.
pub cut_http-Handed :
    (fuel : ℕ) (m : Request) (buf : List ℕ)
    → Fresh m
    → 0 < length buf
    → length buf < fuel
    → length buf + 1024 < 2 ^ 31
    → Handed buf (cut_http fuel m buf)
unfolding cut_http
cut_http-Handed zero m buf f some_bytes enough small = absurd (omega arith)
cut_http-Handed (suc fuel) m [] f some_bytes enough small = absurd (omega arith)
cut_http-Handed (suc fuel) m (c ∷ cs) f some_bytes enough small =
    after_parse-Handed (cut_http fuel) m (c ∷ cs) f (omega arith)
      (λ m1 k f1 pos less.
        cut_http-Handed fuel m1 (drop k (c ∷ cs)) f1 (omega (arith, length-drop k (c ∷ cs)))
          (omega (arith, length-drop k (c ∷ cs))) (omega (arith, length-drop k (c ∷ cs))))
      (parse m (c ∷ cs))
      (parse_request-Tame m (c ∷ cs) f.valid (omega (arith, f.none_written)) (unsized f.no_size))
      (parse-Moves m c cs f.at_start)
