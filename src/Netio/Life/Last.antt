-- ===== src/Netio/Life/Last.antt =====
-- What a `TcpSocket` (netio/tsocket_impl.hpp) tells the program after `OnDisconnected`.
use netlib.Common.{ℕ, ◌≡◌, Option, none, some, List, [], ◌++◌, map}
use netlib.Netio.Life.{receives, Remaining, TcpSocket}

-- The messages that are left of the chunk that is being notified.
abbrev pub left_of : Option Remaining → List (List ℕ)
left_of none = []
left_of (some r) = r.left

-- From `s` to `s'` the program is told messages only, the next ones of the chunk that is being
-- notified in `s`.
pub record Trails (s s' : TcpSocket) : Type 0 where
  pub taken : List (List ℕ)
  pub left : left_of s.rest ≡ taken ++ left_of s'.rest
  pub told : s'.callbacks ≡ s.callbacks ++ map receives taken

abbrev AfterTrails : TcpSocket → Option TcpSocket → Type 0
AfterTrails s none = ⊥
AfterTrails s (some s') = Trails s s'
