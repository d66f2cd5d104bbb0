-- ===== src/Netio/Life/Reached.antt =====
-- What holds of a `TcpSocket` (netio/tsocket_impl.hpp) whatever happens to it from `Init` on.
use netlib.Common.{
  ℕ, suc, ◌≤◌, ◌<◌, ◌≡◌, refl, ap, subst, ◌∙◌, inr, Bool, true, false, Option, none, some, List, [],
  ◌∷◌, ◌++◌, map, append-nil, arith, length, ◌==◌, if◌then◌else◌,
}
use netlib.Netio.Reader.{read_size, cut_msg_pack}
use netlib.Netio.Reader.Stream.{new_reader-Holds}
use netlib.Netio.Writer.{is_start, is_close, connected}
use netlib.Netio.Writer.Requests.{
  closings, one_if, post_close-Counted, send-Counted, send_buffer-Counted, write_handler-Counted,
}
use netlib.Netio.Life.{
  connects, receives, disconnects, TcpSocket, init, ends_reading, start_cut, read_handler, carry_on,
  close_handler, disconnections, Step, reads, carries_on, sends, sends_buffer, writes, closes,
  closed, Reach, accepted, later,
}
use netlib.Netio.Life.Flags.{post_close-Later, send-Later, send_buffer-Later, write_handler-Later}
use netlib.Netio.Life.Ordered.{
  last_of, is_some, IsOrdered, disconnections-order, with_base, ends-IsOrdered, AfterIsOrdered,
  start_cut-IsOrdered, follow_rest-IsOrdered,
}

chosen :
    (b : Bool) (m m' : Option TcpSocket)
    → AfterIsOrdered m
    → AfterIsOrdered m'
    → AfterIsOrdered (if b then m else m')
chosen true m m' h h' = h
chosen false m m' h h' = h'

started :
    (b : Bool) (m m' : Option TcpSocket)
    → (b ≡ true → AfterIsOrdered m)
    → AfterIsOrdered m'
    → AfterIsOrdered (if b then m else m')
started true m m' h h' = h refl
started false m m' h h' = h'

-- `_ReadHandler`, for a read that was posted.
pub read_handler-IsOrdered :
    (chunk : List ℕ) (error : Bool) (s : TcpSocket)
    → s.reading ≡ true
    → length chunk ≤ read_size
    → IsOrdered s
    → AfterIsOrdered (read_handler chunk error s)
unfolding read_handler
read_handler-IsOrdered chunk error s posted small o =
    let s' = record s { reading = false } in
    let shut =
      ends-IsOrdered s' o.told o.ended o.done o.order o.over (λ e. o.alone posted) o.counted in
    let cut = start_cut s' (cut_msg_pack (suc (length chunk)) s.reader chunk) in
    let live = if is_start s.base.flag then cut else some (ends_reading s') in
    chosen error (some (ends_reading s'))
      (if length chunk == 0 then some (ends_reading s') else live) shut
      (chosen (length chunk == 0) (some (ends_reading s')) live shut (
        started (is_start s.base.flag) cut (some (ends_reading s'))
          (λ on. start_cut-IsOrdered s o chunk on (o.alone posted) small) shut))

-- `_CloseHandler`, for a close request that it was not called for.
close_handler-IsOrdered :
    (s : TcpSocket)
    → IsOrdered s
    → disconnections s.callbacks < closings s.base.requests
    → IsOrdered (close_handler s)
unfolding close_handler
close_handler-IsOrdered s o asked =
    let count : disconnections s.callbacks ≡ one_if (is_some o.ended) =
      ap disconnections o.order ∙ disconnections-order o.told o.ended in
    let (still, shut) =
      ends (is_close s.base.flag) o.ended (omega (arith, asked, count, o.counted.closed_once)) in
    record {
      told = o.told;
      ended = some [];
      order =
          ap (λ cs. cs ++ disconnects ∷ [])
            (o.order ∙ ap (λ e. connects ∷ (map receives o.told ++ last_of e)) still)
          ∙ ap (λ cs. connects ∷ (cs ++ disconnects ∷ [])) (append-nil (map receives o.told));
      over = λ e. shut;
      alone = o.alone;
      watched = o.watched;
      between = o.between;
      done = o.done;
      counted = o.counted;
    }
  where
    ends :
        (c : Bool) (e : Option (List (List ℕ)))
        → one_if (is_some e) < one_if c
        → (e ≡ none) × (c ≡ true)
    ends true (some late) h = absurd (omega (arith, h))
    ends true none h = (refl, refl)
    ends false e h = absurd (omega (arith, h))

pub Step-IsOrdered : {s s' : TcpSocket} → Step s s' → IsOrdered s → IsOrdered s'
unfolding carry_on
Step-IsOrdered {s} (reads chunk error posted small e) o =
    subst AfterIsOrdered e (read_handler-IsOrdered chunk error s posted small o)
Step-IsOrdered {s} (carries_on failed) o = follow_rest-IsOrdered failed s o s.rest refl
Step-IsOrdered {s} (sends failed now d) o =
    with_base s _ (send-Later failed now d s.base) (send-Counted failed s.base o.counted now d) o
Step-IsOrdered {s} (sends_buffer failed b) o =
    with_base s _ (send_buffer-Later failed b s.base)
      (send_buffer-Counted failed s.base o.counted b) o
Step-IsOrdered {s} (writes failed n error writing) o =
    with_base s _ (write_handler-Later failed n error s.base)
      (write_handler-Counted failed n error s.base writing o.counted) o
Step-IsOrdered {s} closes o =
    with_base s _ (post_close-Later s.base) (post_close-Counted s.base o.counted) o
Step-IsOrdered {s} (closed asked) o = close_handler-IsOrdered s o asked

init-IsOrdered : IsOrdered init
unfolding init connected
init-IsOrdered = record {
  told = [];
  ended = none;
  order = refl;
  over = λ e. cc;
  alone = λ e. cc;
  watched = λ h. inr refl;
  between = λ h w. ([], new_reader-Holds);
  done = 0;
  counted = record { outstanding = refl; closed_once = refl };
}

pub Reach-IsOrdered : {s : TcpSocket} → Reach s → IsOrdered s
Reach-IsOrdered accepted = init-IsOrdered
Reach-IsOrdered (later r st) = Step-IsOrdered st (Reach-IsOrdered r)

-- A read that was posted and ends is handled.
pub read_handler-returns :
    {s : TcpSocket} (o : IsOrdered s) (chunk : List ℕ) (error : Bool)
    → s.reading ≡ true
    → length chunk ≤ read_size
    → (s' : TcpSocket) × (read_handler chunk error s ≡ some s')
read_handler-returns {s} o chunk error posted small =
    found (read_handler chunk error s) (read_handler-IsOrdered chunk error s posted small o)
  where
    found : (m : Option TcpSocket) → AfterIsOrdered m → (s' : TcpSocket) × (m ≡ some s')
    found none h = absurd h
    found (some s') h = (s', refl)
