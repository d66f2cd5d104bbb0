-- ===== src/Netio/Reader/Frames.antt =====
-- Framed messages (`Send` in netio/tsocket_impl.hpp) and the stream that they make.
use netlib.Common.{
  ℕ, ◌+◌, ◌≤◌, ◌<◌, ◌≡◌, sym, ap, ◌∙◌, true, List, [], ◌∷◌, ◌++◌, arith, length, drop,
  length-append, drop-drop, take-length_append, drop-length_append, append_assoc,
}
use netlib.Netio.Header.{hdrlen, announced, sent_header, length-sent_header, announced-sent_header}
use netlib.Netio.Reader.{pack_size}
use netlib.Netio.Reader.Spec.{prepend, deframe, deframe-message, deframe-short}

-- A message with the header that `Send` gives it, and a stream of such.
abbrev pub frame : ℕ × List ℕ → List ℕ
frame (t, m) = sent_header t (length m) ++ m

abbrev pub frames : List (ℕ × List ℕ) → List ℕ
frames [] = []
frames (tm ∷ tms) = frame tm ++ frames tms

abbrev pub bodies : List (ℕ × List ℕ) → List (List ℕ)
bodies [] = []
bodies ((t, m) ∷ tms) = m ∷ bodies tms

-- No message is longer than M_SOCKET_PACK_SIZE.
abbrev pub AllFit : List (ℕ × List ℕ) → Type 0
AllFit [] = Unit {0}
AllFit ((t, m) ∷ tms) = (length m ≤ pack_size) × AllFit tms

-- Cutting undoes framing.
pub deframe-frames :
    (f : ℕ) (tms : List (ℕ × List ℕ))
    → length (frames tms) < f
    → AllFit tms
    → deframe f (frames tms) ≡ record { msgs = bodies tms; rest = []; ok = true }
deframe-frames f [] h fit = deframe-short f [] (omega arith)
deframe-frames f ((t, m) ∷ tms) h (fits, fit) =
    let hdr = sent_header t (length m) in
    let later = frames tms in
    let all = hdr ++ (m ++ later) in
    let whole : frame (t, m) ++ later ≡ all = append_assoc hdr m later in
    let size : announced all ≡ length m =
      announced-sent_header t (length m) (m ++ later) (omega arith) in
    let len : length all ≡ hdrlen + length m + length later = omega (
      arith,
      length-append hdr (m ++ later),
      length-append m later,
      length-sent_header t (length m),
    ) in
    let behind : drop hdrlen all ≡ m ++ later =
      rw length-sent_header at (drop-length_append hdr (m ++ later)) in
    let next : drop (hdrlen + length m) all ≡ later =
      sym (drop-drop (length m) hdrlen all)
      ∙ ap (drop (length m)) behind
      ∙ drop-length_append m later in
    let one =
      rw (size, behind, take-length_append m later, next) at
        (deframe-message f all (omega (arith, ap length whole)) (omega (arith, size, len))
          (omega (arith, size))) in
    ap (deframe f) whole
    ∙ one
    ∙ ap (prepend (m ∷ [])) (deframe-frames f tms (omega (arith, len, ap length whole)) fit)
