-- ===== src/Netio/Reader/Append.antt =====
-- A stream that arrives in two parts, cut as one (`TcpStreamSocket::_CutMsgPack`, netio/tsocket_impl.hpp).
use netlib.Common.{
  ℕ, zero, suc, ◌+◌, ◌≤◌, ◌<◌, ◌≡◌, refl, ap, ◌∙◌, true, false, List, [], ◌∷◌, ◌++◌, arith, length,
  take, drop, length-drop, length-append, take-append, drop-append,
}
use native.Mathlib.Decide.{dec_lt}
use netlib.Netio.Header.{hdrlen, announced, announced-append}
use netlib.Netio.Reader.{pack_size}
use netlib.Netio.Reader.Spec.{
  prepend, deframe, deframe-message, deframe-short, deframe-incomplete, deframe-bad,
}

-- How the front of a stream looks.
pub data Front (xs : List ℕ) : Type 0 where
  short : length xs < hdrlen → Front xs
  bad : hdrlen ≤ length xs → pack_size < announced xs → Front xs
  incomplete :
      hdrlen ≤ length xs → announced xs ≤ pack_size → length xs < hdrlen + announced xs → Front xs
  message : announced xs ≤ pack_size → hdrlen + announced xs ≤ length xs → Front xs

pub front : (xs : List ℕ) → Front xs
front xs = elim (dec_lt (length xs) hdrlen) [
  | yes p ↦ short p
  | no p ↦ elim (dec_lt pack_size (announced xs)) [
    | yes q ↦ bad (omega arith) q
    | no q ↦ elim (dec_lt (length xs) (hdrlen + announced xs)) [
      | yes r ↦ incomplete (omega arith) (omega arith) r
      | no r ↦ message (omega arith) (omega arith)
    ]
  ]
]

module _ (f : ℕ) (ys : List ℕ) where
  -- One round at a whole message, with more of the stream behind.
  both :
      (xs : List ℕ)
      → length (xs ++ ys) < f
      → announced xs ≤ pack_size
      → hdrlen + announced xs ≤ length xs
      → deframe f (xs ++ ys)
        ≡ prepend
            (take (announced xs) (drop hdrlen xs) ∷ [])
            (deframe f (drop (hdrlen + announced xs) xs ++ ys))
  both xs h p q =
      let n = announced xs in
      let same : announced (xs ++ ys) ≡ n = announced-append xs ys (omega arith) in
      let len = length-append xs ys in
      rw
        (
          same,
          drop-append (hdrlen + n) xs ys q,
          drop-append hdrlen xs ys (omega arith),
          take-append n (drop hdrlen xs) ys (omega (arith, length-drop hdrlen xs)),
        )
        at (deframe-message f (xs ++ ys) h (omega (arith, same, len)) (omega (arith, same)))

  -- The rest behind a whole message is short enough for the fuel.
  rest_room :
      (xs : List ℕ) → length (xs ++ ys) < f → length (drop (hdrlen + announced xs) xs ++ ys) < f
  rest_room xs h =
      let d = drop (hdrlen + announced xs) xs in
      omega (arith, length-drop (hdrlen + announced xs) xs, length-append d ys, length-append xs ys)

  appended :
      (k : ℕ) (xs : List ℕ)
      → length xs < k
      → length (xs ++ ys) < f
      → (deframe f xs).ok ≡ true
      → deframe f (xs ++ ys) ≡ prepend (deframe f xs).msgs (deframe f ((deframe f xs).rest ++ ys))
  appended zero xs l h e = absurd (omega arith)
  appended (suc k) xs l h e = elim (front xs) [
    | short p ↦ rw (deframe-short f xs p)
    | bad p q ↦ cc (deframe-bad f xs (omega (arith, length-append xs ys)) p q)
    | incomplete _ p q ↦ rw (deframe-incomplete f xs q p)
    | message p q ↦
        let n = announced xs in
        let one = deframe-message f xs (omega (arith, length-append xs ys)) q p in
        let later =
          appended k (drop (hdrlen + n) xs) (omega (arith, length-drop (hdrlen + n) xs))
            (rest_room xs h) (rw one at e) in
        rw one (both xs h p q ∙ ap (prepend (take n (drop hdrlen xs) ∷ [])) later)
  ]

  ignored :
      (k : ℕ) (xs : List ℕ)
      → length xs < k
      → length (xs ++ ys) < f
      → (deframe f xs).ok ≡ false
      → ((deframe f (xs ++ ys)).msgs ≡ (deframe f xs).msgs) × ((deframe f (xs ++ ys)).ok ≡ false)
  ignored zero xs l h e = absurd (omega arith)
  ignored (suc k) xs l h e = elim (front xs) [
    | short p ↦ cc (deframe-short f xs p)
    | bad p q ↦
        let same = announced-append xs ys p in
        let len = length-append xs ys in
        rw
          (
            deframe-bad f xs (omega (arith, len)) p q,
            deframe-bad f (xs ++ ys) h (omega (arith, len)) (omega (arith, same)),
          )
          (refl, refl)
    | incomplete _ p q ↦ cc (deframe-incomplete f xs q p)
    | message p q ↦
        let n = announced xs in
        let one = deframe-message f xs (omega (arith, length-append xs ys)) q p in
        let later =
          ignored k (drop (hdrlen + n) xs) (omega (arith, length-drop (hdrlen + n) xs))
            (rest_room xs h) (rw one at e) in
        rw (one, both xs h p q) (ap (◌∷◌ (take n (drop hdrlen xs))) later.0, later.1)
  ]

-- A stream may be cut in two anywhere: what the first part leaves goes before the second.
pub deframe-append :
    (f : ℕ) (xs ys : List ℕ)
    → length (xs ++ ys) < f
    → (deframe f xs).ok ≡ true
    → deframe f (xs ++ ys) ≡ prepend (deframe f xs).msgs (deframe f ((deframe f xs).rest ++ ys))
deframe-append f xs ys h e = appended f ys (suc (length xs)) xs (omega arith) h e

-- After a message that is too long nothing more is looked at.
pub deframe-append_bad :
    (f : ℕ) (xs ys : List ℕ)
    → length (xs ++ ys) < f
    → (deframe f xs).ok ≡ false
    → ((deframe f (xs ++ ys)).msgs ≡ (deframe f xs).msgs) × ((deframe f (xs ++ ys)).ok ≡ false)
deframe-append_bad f xs ys h e = ignored f ys (suc (length xs)) xs (omega arith) h e
