-- ===== src/Netio/Life/Ordered.antt =====
-- The order of the callbacks of a `TcpSocket` (netio/tsocket_impl.hpp), which the comment above
-- them in netio/netio_impl.hpp promises.
use netlib.Common.{
  ℕ, suc, ◌≤◌, ◌≡◌, refl, sym, ap, subst, ◌∙◌, ◌⊎◌, inl, inr, Bool, true, false, Option, none, some,
  append_assoc, List, [], ◌∷◌, ◌++◌, map, map-append, append-nil, arith, length,
}
use netlib.Netio.Reader.{Cut, read_size, cut_msg_pack}
use netlib.Netio.Reader.Step.{Holds}
use netlib.Netio.Reader.Refine.{cut_msg_pack-deframe}
use netlib.Netio.Writer.{Socket, is_start, is_close, post_close}
use netlib.Netio.Writer.Requests.{one_if, Counted, post_close-Counted}
use netlib.Netio.Life.{
  Callback, connects, receives, disconnects, Remaining, TcpSocket, try_recv_data, ends_reading,
  start_cut, follow_up, follow_rest, disconnections,
}
use netlib.Netio.Life.Flags.{Later, post_close-Later, post_close-off}

-- OnDisconnected, and what is told after it.
abbrev pub last_of : Option (List (List ℕ)) → List Callback
last_of none = []
last_of (some late) = disconnects ∷ map receives late

abbrev pub is_some : {A : Type 0} → Option A → Bool
is_some none = false
is_some (some x) = true

-- Whether what was cut from the last chunk was well-formed.
abbrev pub is_well : Option Remaining → Bool
is_well none = true
is_well (some r) = r.ok

-- The callbacks are OnConnected, then OnReceiveData for some messages, then OnDisconnected and some
-- messages more, or not yet. OnDisconnected is only there when the socket is closed. No read is
-- posted while a callback runs; a socket that is started has a read posted or a callback that runs,
-- and what it has read so far, if well-formed, is the start of a message.
pub record IsOrdered (s : TcpSocket) : Type 0 where
  pub told : List (List ℕ)
  pub ended : Option (List (List ℕ))
  pub order : s.callbacks ≡ connects ∷ (map receives told ++ last_of ended)
  pub over : is_some ended ≡ true → is_close s.base.flag ≡ true
  pub alone : s.reading ≡ true → s.rest ≡ none
  pub watched : is_start s.base.flag ≡ true → (s.reading ≡ true) ⊎ (is_some s.rest ≡ true)
  pub between :
      is_start s.base.flag ≡ true → is_well s.rest ≡ true → (xs : List ℕ) × Holds s.reader xs
  pub done : ℕ
  pub counted : Counted done s.base

disconnections-receives : (ms : List (List ℕ)) → disconnections (map receives ms) ≡ 0
disconnections-receives [] = refl
disconnections-receives (m ∷ ms) = disconnections-receives ms

pub disconnections-order :
    (ms : List (List ℕ)) (e : Option (List (List ℕ)))
    → disconnections (map receives ms ++ last_of e) ≡ one_if (is_some e)
disconnections-order [] none = refl
disconnections-order [] (some late) = ap suc (disconnections-receives late)
disconnections-order (m ∷ ms) e = disconnections-order ms e

-- A step of the sending side.
pub with_base :
    {k : ℕ} (s : TcpSocket) (b : Socket)
    → Later s.base b
    → Counted k b
    → IsOrdered s
    → IsOrdered (record s { base = b })
with_base {k} s b l c o = record {
  told = o.told;
  ended = o.ended;
  order = o.order;
  over = λ e. l.shut (o.over e);
  alone = o.alone;
  watched = λ h. o.watched (l.off h);
  between = λ h. o.between (l.off h);
  done = k;
  counted = c;
}

-- `_PostClose`, whether a read is posted or not.
pub ends-IsOrdered :
    (s : TcpSocket) (told : List (List ℕ)) (ended : Option (List (List ℕ))) (k : ℕ)
    → s.callbacks ≡ connects ∷ (map receives told ++ last_of ended)
    → (is_some ended ≡ true → is_close s.base.flag ≡ true)
    → (s.reading ≡ true → s.rest ≡ none)
    → Counted k s.base
    → IsOrdered (ends_reading s)
ends-IsOrdered s told ended k order over alone c = record {
  told = told;
  ended = ended;
  order = order;
  over = λ e. (post_close-Later s.base).shut (over e);
  alone = alone;
  watched = λ h. absurd (no_start h);
  between = λ h. absurd (no_start h);
  done = k;
  counted = post_close-Counted s.base c;
}
  where
    no_start : is_start (post_close s.base).flag ≡ true → ⊥
    no_start h = let e = post_close-off s.base in cc

abbrev pub AfterIsOrdered : Option TcpSocket → Type 0
AfterIsOrdered none = ⊥
AfterIsOrdered (some s) = IsOrdered s

-- A chunk that is cut, on a started socket that ran no callback.
pub start_cut-IsOrdered :
    (s : TcpSocket) (o : IsOrdered s) (chunk : List ℕ)
    → is_start s.base.flag ≡ true
    → s.rest ≡ none
    → length chunk ≤ read_size
    → AfterIsOrdered (
        start_cut (record s { reading = false }) (cut_msg_pack (suc (length chunk)) s.reader chunk))
start_cut-IsOrdered s o chunk on free small =
    let (xs, held) = o.between on (ap is_well free) in
    let g = suc (length (xs ++ chunk)) in
    let t =
      cut_msg_pack-deframe (suc (length chunk)) s.reader xs chunk g held small (omega arith)
        (omega arith) in
    subst (λ m. AfterIsOrdered (start_cut (record s { reading = false }) m)) (sym t.returned)
      (cut t.cut t.keeps)
  where
    held_by :
        {ys : List ℕ} (c : Cut)
        → (c.ok ≡ false) ⊎ Holds c.reader ys
        → c.ok ≡ true
        → (xs : List ℕ) × Holds c.reader xs
    held_by c (inl bad) ok = cc
    held_by {ys} c (inr h) ok = (ys, h)

    cut :
        {ys : List ℕ} (c : Cut)
        → (c.ok ≡ false) ⊎ Holds c.reader ys
        → AfterIsOrdered (start_cut (record s { reading = false }) (some c))
    cut c k = record {
      told = o.told;
      ended = o.ended;
      order = o.order;
      over = o.over;
      alone = λ e. cc;
      watched = λ h. inr refl;
      between = λ h ok. held_by c k ok;
      done = o.done;
      counted = o.counted;
    }

-- One message more.
order-told :
    (told : List (List ℕ)) (m : List ℕ) (ended : Option (List (List ℕ)))
    → (told' : List (List ℕ)) × (ended' : Option (List (List ℕ))) × ((map receives told
            ++ last_of ended)
          ++ receives m ∷ []
        ≡ map receives told' ++ last_of ended')
      × (is_some ended' ≡ is_some ended)
order-told told m none = (
  told ++ m ∷ [],
  none,
  ap (λ cs. cs ++ receives m ∷ []) (append-nil (map receives told))
      ∙ sym (map-append receives told (m ∷ []))
      ∙ sym (append-nil (map receives (told ++ m ∷ []))),
  refl,
)
order-told told m (some late) = (
  told,
  some (late ++ m ∷ []),
  append_assoc (map receives told) (disconnects ∷ map receives late) (receives m ∷ [])
      ∙ ap (λ cs. map receives told ++ disconnects ∷ cs) (sym (map-append receives late (m ∷ []))),
  refl,
)

-- What follows a callback.
module _ (failed : Bool) (s : TcpSocket) (o : IsOrdered s) where
  follow_up-IsOrdered :
      (ms : List (List ℕ)) (ok : Bool)
      → s.rest ≡ some (record { left = ms; ok = ok })
      → IsOrdered (follow_up failed s ms ok)
  unfolding try_recv_data
  follow_up-IsOrdered (m ∷ ms) ok e =
      let (told', ended', eq, same) = order-told o.told m o.ended in
      record {
        told = told';
        ended = ended';
        order = ap (λ cs. cs ++ receives m ∷ []) o.order ∙ ap (λ cs. connects ∷ cs) eq;
        over = λ h. o.over (sym same ∙ h);
        alone = λ h. absurd (let e' = o.alone h in let q = sym e ∙ e' in cc);
        watched = λ h. inr refl;
        between = λ h w. o.between h (ap is_well e ∙ w);
        done = o.done;
        counted = o.counted;
      }
  follow_up-IsOrdered [] true e = posted failed
    where
      posted : (b : Bool) → IsOrdered (follow_up b s [] true)
      posted true =
          ends-IsOrdered (record s { rest = none }) o.told o.ended o.done o.order o.over (λ h. refl)
            o.counted
      posted false = record {
        told = o.told;
        ended = o.ended;
        order = o.order;
        over = o.over;
        alone = λ h. refl;
        watched = λ h. inl refl;
        between = λ h w. o.between h (ap is_well e);
        done = o.done;
        counted = o.counted;
      }
  follow_up-IsOrdered [] false e =
      ends-IsOrdered (record s { rest = none; read_shut = true }) o.told o.ended o.done o.order
        o.over (λ h. refl) o.counted

  pub follow_rest-IsOrdered :
      (q : Option Remaining) → s.rest ≡ q → IsOrdered (follow_rest failed s q)
  follow_rest-IsOrdered none e = o
  follow_rest-IsOrdered (some r) e = follow_up-IsOrdered r.left r.ok e
