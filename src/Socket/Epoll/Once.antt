-- ===== src/Socket/Epoll/Once.antt =====
-- A run of posts and events on a socket over epoll (socket/epoll_access.hpp): each handler is run as
-- often as it was posted, but for what is still pending.
use netlib.Common.{
  ℕ, ◌+◌, ◌≡◌, Bool, true, false, not, Option, none, some, List, [], ◌∷◌, ◌&&◌, if◌then◌else◌,
}
use netlib.Socket.Epoll.{Core, Service}
use netlib.Socket.Epoll.Armed.{View, Event, recv, send, ready, core_of, pending, registered, step}

module _ {H : Type 0} where
  unfoldable pub run : List (Event H) → Service → Core H → Option (Service × Core H)
  unfolding step
  run [] s c = some (s, c)
  run (ev ∷ evs) s c = elim (step ev s c) [ none ↦ none | some (s', c') ↦ run evs s' c' ]

  -- A direction is posted only when nothing is pending in it, and events only come once the socket
  -- is registered: `r` and `w` say what is pending, `b` whether it is registered.
  abbrev pub Orderly : List (Event H) → Bool → Bool → Bool → Type 0
  Orderly [] r w b = Unit
  Orderly (recv h len ∷ evs) r w b = (r ≡ false) × Orderly evs true w true
  Orderly (send h len ∷ evs) r w b = (w ≡ false) × Orderly evs r true true
  Orderly (ready x y ∷ evs) r w b = (b ≡ true) × Orderly evs (r && not x) (w && not y) true

  abbrev pub posts : List (Event H) → List H
  posts [] = []
  posts (recv h len ∷ evs) = h ∷ posts evs
  posts (send h len ∷ evs) = h ∷ posts evs
  posts (ready x y ∷ evs) = posts evs

  -- How many of these handlers pass a test.
  abbrev pub tally : (H → Bool) → List H → ℕ
  tally p [] = 0
  tally p (h ∷ hs) = (if p h then 1 else 0) + tally p hs

  abbrev pub waiting : Option (H × ℕ) → List H
  waiting none = []
  waiting (some (h, len)) = h ∷ []

  abbrev pub total : (H → Bool) → View H → ℕ
  total p v = tally p v.called + tally p (waiting v.reading) + tally p (waiting v.writing)

  -- The rest of a run, from the view that the first event leaves.
  Rest : (H → Bool) → List (Event H) → Type 0
  Rest p evs =
      (v : View H) (s : Service) (i : ℕ) (is : List ℕ)
      → s.impls ≡ i ∷ is
      → Orderly evs (pending v.reading) (pending v.writing) (registered v.service)
      → (v' : View H) × (s' : Service) × (run evs s (core_of v) ≡ some (s', core_of v'))
        × (total p v' ≡ total p v + tally p (posts evs))
