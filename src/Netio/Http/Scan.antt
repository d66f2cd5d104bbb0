-- ===== src/Netio/Http/Scan.antt =====
-- `HttpBaseMsg::_Parse1` and `_Parse2` (netio/httpmsg.hpp): the search for a blank or a line's end.
pub mod Bounds
use netlib.Common.{ℕ, suc, ◌+◌, Bool, true, false, ◌&&◌, List, [], ◌∷◌, ◌==◌, if◌then◌else◌, length}

-- The loops of `_Parse1` and `_Parse2`: `pos` and `hit`.
unfoldable pub scan1 : ℕ → List ℕ → ℕ × Bool
scan1 chr [] = (0, false)
scan1 chr (c ∷ cs) = let (pos, hit) = scan1 chr cs in if c == chr then (0, true) else (suc pos, hit)

unfoldable pub scan2 : ℕ → ℕ → List ℕ → ℕ × Bool
scan2 chr1 chr2 [] = (0, false)
scan2 chr1 chr2 (c ∷ []) = (0, false)
scan2 chr1 chr2 (c ∷ d ∷ cs) =
    let (pos, hit) = scan2 chr1 chr2 (d ∷ cs) in
    if (c == chr1) && (d == chr2) then (0, true) else (suc pos, hit)

-- `_Parse1` and `_Parse2`: whether the characters were found, and how much to copy.
unfoldable pub parse1 : ℕ → List ℕ → Bool × ℕ
parse1 chr buf =
    let (pos, hit) = scan1 chr buf in (hit, if pos == length buf then length buf else pos + 1)

unfoldable pub parse2 : ℕ → ℕ → List ℕ → Bool × ℕ
parse2 chr1 chr2 buf =
    let (pos, hit) = scan2 chr1 chr2 buf in
    (hit, if pos + 1 == length buf then length buf else pos + 2)
