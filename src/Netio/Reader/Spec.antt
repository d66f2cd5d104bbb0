-- ===== src/Netio/Reader/Spec.antt =====
-- What cutting a whole stream into messages means, with no chunks, buffers or state.
use netlib.Common.{
  ℕ, zero, suc, ◌+◌, ◌≤◌, ◌<◌, ◌≡◌, refl, Bool, true, false, List, [], ◌∷◌, ◌++◌, arith, ltb,
  if◌then◌else◌, length, take, drop, length-drop,
}
use netlib.Netio.Header.{hdrlen, announced}
use netlib.Netio.Reader.{pack_size}

pub record Framed : Type 0 where
  pub msgs : List (List ℕ)
  pub rest : List ℕ
  pub ok : Bool

abbrev pub stop : List ℕ → Bool → Framed
stop xs ok = record { msgs = []; rest = xs; ok = ok }

abbrev pub prepend : List (List ℕ) → Framed → Framed
prepend ms f = record f { msgs = ms ++ f.msgs }

-- The messages at the front of a stream, up to the first that is incomplete or too long. Fuel
-- above the stream's length is enough.
unfoldable pub deframe : ℕ → List ℕ → Framed
deframe zero xs = stop xs true
deframe (suc fuel) xs =
    let n = announced xs in
    let next = prepend (take n (drop hdrlen xs) ∷ []) (deframe fuel (drop (hdrlen + n) xs)) in
    if ltb (length xs) hdrlen
    then stop xs true
    else if ltb pack_size n
    then stop xs false
    else if ltb (length xs) (hdrlen + n)
    then stop xs true
    else next

pub deframe_fuel :
    (f g : ℕ) (xs : List ℕ) → length xs < f → length xs < g → deframe f xs ≡ deframe g xs
unfolding deframe
deframe_fuel zero g xs h k = absurd (omega arith)
deframe_fuel (suc f) zero xs h k = absurd (omega arith)
deframe_fuel (suc f) (suc g) xs h k = ground (
  arith,
  deframe_fuel f g (drop (hdrlen + announced xs) xs),
  length-drop (hdrlen + announced xs) xs,
)

pub length-rest : (f : ℕ) (xs : List ℕ) → length (deframe f xs).rest ≤ length xs
unfolding deframe
length-rest zero xs = omega arith
length-rest (suc f) xs =
    ground (
      arith,
      length-rest f (drop (hdrlen + announced xs) xs),
      length-drop (hdrlen + announced xs) xs,
    )

-- One round of `deframe` at a stream that starts with a whole message.
pub deframe-message :
    (f : ℕ) (xs : List ℕ)
    → length xs < f
    → hdrlen + announced xs ≤ length xs
    → announced xs ≤ pack_size
    → deframe f xs
      ≡ prepend
          (take (announced xs) (drop hdrlen xs) ∷ [])
          (deframe f (drop (hdrlen + announced xs) xs))
unfolding deframe
deframe-message zero xs h k s = absurd (omega arith)
deframe-message (suc f) xs h k s = ground (
  arith,
  deframe_fuel f (suc f) (drop (hdrlen + announced xs) xs),
  length-drop (hdrlen + announced xs) xs,
)

pub deframe-short : (f : ℕ) (xs : List ℕ) → length xs < hdrlen → deframe f xs ≡ stop xs true
unfolding deframe
deframe-short zero xs h = refl
deframe-short (suc f) xs h = ground arith

pub deframe-incomplete :
    (f : ℕ) (xs : List ℕ)
    → length xs < hdrlen + announced xs
    → announced xs ≤ pack_size
    → deframe f xs ≡ stop xs true
unfolding deframe
deframe-incomplete zero xs h s = refl
deframe-incomplete (suc f) xs h s = ground arith

pub deframe-bad :
    (f : ℕ) (xs : List ℕ)
    → length xs < f
    → hdrlen ≤ length xs
    → pack_size < announced xs
    → deframe f xs ≡ stop xs false
unfolding deframe
deframe-bad zero xs h k s = absurd (omega arith)
deframe-bad (suc f) xs h k s = ground arith
