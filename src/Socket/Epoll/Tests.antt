-- ===== src/Socket/Epoll/Tests.antt =====
-- socket/epoll_access.hpp: a socket that reads and writes at the same time.
use netlib.Common.{ℕ, ◌≡◌, refl, true, false, none, some, List, [], ◌∷◌}
use netlib.Socket.Epoll.{Service, opened}
use netlib.Socket.Epoll.Armed.{View, Event, recv, send, ready, core_of}

abbrev services : Service
services = record { implidx = 0; impls = 6 ∷ 7 ∷ []; fdcnts = 0 ∷ 0 ∷ [] }

abbrev fresh : View ℕ
fresh = record { service = none; reading = none; writing = none; called = [] }

-- The handler 1 waits for data.
abbrev reading : View ℕ
reading = record { service = some 7; reading = some (1, 4096); writing = none; called = [] }

abbrev events : List (Event ℕ)
events = recv 1 4096 ∷ send 2 10 ∷ ready false true ∷ send 3 5 ∷ ready true true ∷ recv 4 4096 ∷ []

fresh-opened : core_of fresh ≡ opened
fresh-opened = refl
