-- ===== src/Synccall/Rpc/Sample.antt =====
-- A concrete call (synccall/): message type 5 with two bytes, answered by one more byte.
use netlib.Common.{
  ℕ, ◌<◌, length, List, ◌+◌, ◌^◌, ◌≡◌, some, [], ◌∷◌, ◌++◌, arith, le_bytes, take, length-take, sym,
  ap, ◌∙◌, List,
}
use netlib.Base.Buffer.{Buffer, new, write, contents}
use netlib.Base.Buffer.Valid.{IsValid, new-IsValid, write-Wrote, write-IsValid, contents-write}
use netlib.Synccall.Rpc.{BaseScClient, Handler, fill_request, on_receive_data, twoway_type}
use netlib.Synccall.Rpc.Match.{Answers, head_bytes, on_receive_data-twoway}

abbrev pub caller : BaseScClient
caller = record { packidx = 0; request = new }

-- A dealer that answers 9 and what it got.
abbrev pub dealer : Handler
dealer = record { two_way = λ t q out. write out (9 ∷ take 2 (contents q)) }

abbrev pub said : ℕ → List ℕ → List ℕ
said t msg = 9 ∷ take 2 msg

pub dealer-Answers : Answers dealer said
dealer-Answers t q out v p =
    write-Wrote (9 ∷ take 2 (contents q)) v (omega (arith, length-take 2 (contents q)))

abbrev pub hello : List ℕ
hello = 104 ∷ 105 ∷ []

abbrev pub filled : BaseScClient
filled = fill_request twoway_type 5 hello caller

-- What reaches the server, and what comes back.
abbrev pub holding : List ℕ → Buffer
holding bs = write new bs

pub holding-IsValid : (bs : List ℕ) → length bs + 1024 < 2 ^ 32 → IsValid (holding bs)
holding-IsValid bs small = write-IsValid bs new-IsValid (unfold new in omega arith)

pub contents-holding : (bs : List ℕ) → length bs + 1024 < 2 ^ 32 → contents (holding bs) ≡ bs
unfolding new
contents-holding bs small = contents-write bs (unfold new in new-IsValid) (omega arith)

abbrev pub request_bytes : List ℕ
request_bytes = head_bytes twoway_type 5 1 ++ hello

abbrev pub reply_bytes : List ℕ
reply_bytes = head_bytes twoway_type 5 1 ++ (9 ∷ hello)

pub request_small : length request_bytes + 1024 < 2 ^ 32
unfolding le_bytes
request_small = omega arith

pub reply_small : length reply_bytes + 1024 < 2 ^ 32
unfolding le_bytes
reply_small = omega arith

pub reply_sent :
    (on_receive_data (some dealer) new (holding request_bytes)).sent
    ≡ some (contents (holding reply_bytes))
reply_sent =
    on_receive_data-twoway dealer said new (holding request_bytes) 5 1 hello dealer-Answers
      new-IsValid (holding-IsValid request_bytes request_small) (omega arith) (omega arith)
      (contents-holding request_bytes request_small)
    ∙ ap some (sym (contents-holding reply_bytes reply_small))
