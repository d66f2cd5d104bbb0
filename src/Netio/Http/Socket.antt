-- ===== src/Netio/Http/Socket.antt =====
-- `HttpBaseSocket::_CutMsgPack` (netio/hsocket_impl.hpp), for the requests of a server.
pub mod Chunks
use netlib.Common.{
  ℕ, zero, suc, Bool, true, false, ◌||◌, List, [], ◌∷◌, leb, ◌==◌, if◌then◌else◌, length, drop,
  sub32,
}
use netlib.Netio.Http.Base.{Parsed, done, undefined, no_fuel}
use netlib.Netio.Http.Request.{Request, clear_request, parse}

-- What a call leaves in `_reader.httpmsg` and gives to `OnReceiveData`, in order; or a memory
-- access out of bounds, or fuel that ran out.
pub data HttpCut : Type 0 where
  finished : Request → List Request → HttpCut
  overrun spent : HttpCut

abbrev pub notified : Request → HttpCut → HttpCut
notified m (finished r ms) = finished r (m ∷ ms)
notified m overrun = overrun
notified m spent = spent

-- One round after `Parse`; `again` is the next one.
abbrev pub after_parse : (Request → List ℕ → HttpCut) → List ℕ → Parsed Request → HttpCut
after_parse again buf (done m n) =
    let whole = (n == 0) || leb n (length buf) in
    let m' = if whole then clear_request m else m in
    let later = if sub32 (length buf) n == 0 then finished m' [] else again m' (drop n buf) in
    if whole then notified m later else later
after_parse again buf undefined = overrun
after_parse again buf no_fuel = spent

unfoldable pub cut_http : ℕ → Request → List ℕ → HttpCut
cut_http zero m buf = spent
cut_http (suc fuel) m buf = after_parse (cut_http fuel) buf (parse m buf)
