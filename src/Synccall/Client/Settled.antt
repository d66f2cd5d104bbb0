-- ===== src/Synccall/Client/Settled.antt =====
-- `ScClient::_Sync` (synccall/synccall_client.hpp): what its result says of the client.
use netlib.Common.{ℕ, ◌≡◌, ◌⊎◌, true, false, Option, none, some, List}
use netlib.Base.Buffer.{Buffer}
use netlib.Netio.Sync.{SyncConnector}
use netlib.Synccall.Rpc.{BaseScClient, fill_request, check_reply}
use netlib.Synccall.Client.{
  ScClient, success, connect_invalid, other_error, ReplyPointer, null, dangling, live, Round,
  replied, again, hangs, Called, returned, stuck,
}

-- The request of this round, and a connector that has its reply: `_CheckReply` has accepted it.
abbrev Accepted : ScClient → ScClient → Buffer → ℕ → ℕ → List ℕ → Type 0
Accepted c c' b way msg_type msg =
    (c'.base ≡ fill_request way msg_type msg c.base)
    × ((reply : Buffer) × (check_reply c'.base (some reply) ≡ (some b, true)))
    × ((k : SyncConnector) × (c'.socket ≡ some k) × (k.reader.msgbuffer ≡ b))

-- `_CheckReply` refuses some reply for the request that a client has.
abbrev Refuses : BaseScClient → Type 0
Refuses b = (reply : Buffer) × ((check_reply b (some reply)).1 ≡ false)

-- After a round that failed there is no connector left, and no request was made if there was
-- none to make it on. `preply` is as it was, or null, or the reply was refused and it dangles.
abbrev RoundSpec : ScClient → ℕ → ℕ → List ℕ → ReplyPointer → Round → Type 0
RoundSpec c way msg_type msg p (replied c' b) = Accepted c c' b way msg_type msg
RoundSpec c way msg_type msg p (again code c' r) =
    (c'.socket ≡ none)
    × (((code ≡ connect_invalid) × (c'.base ≡ c.base) × (r ≡ p))
        ⊎ ((code ≡ other_error)
            × (c'.base ≡ fill_request way msg_type msg c.base)
            × ((r ≡ p) ⊎ (r ≡ null) ⊎ ((r ≡ dangling) × Refuses c'.base))))
RoundSpec c way msg_type msg p (hangs c') = c'.base ≡ fill_request way msg_type msg c.base

module _ (c : ScClient) (way msg_type : ℕ) (msg : List ℕ) (p : ReplyPointer) where
  abbrev asked : Option SyncConnector → ScClient
  asked s = record c { base = fill_request way msg_type msg c.base; socket = s }

-- What `preply` can be while `b` has the request: null, or dangling after a refused reply.
abbrev Left : BaseScClient → ReplyPointer → Type 0
Left b r = (r ≡ null) ⊎ ((r ≡ dangling) × Refuses b)

-- What a call leaves: 0 with a reply that was accepted for the last request, or -2 or -3 with no
-- connector and no reply to use.
abbrev pub Settled : ScClient → ℕ → ℕ → List ℕ → Called → Type 0
Settled c way msg_type msg (returned success c' null) = ⊥
Settled c way msg_type msg (returned success c' dangling) = ⊥
Settled c way msg_type msg (returned success c' (live b)) =
    (last : ScClient) × ((last.base ≡ c.base) ⊎ (last.base ≡ fill_request way msg_type msg c.base))
    × Accepted last c' b way msg_type msg
Settled c way msg_type msg (returned connect_invalid c' r) =
    (c'.socket ≡ none)
    × (((c'.base ≡ c.base) × (r ≡ null))
        ⊎ ((c'.base ≡ fill_request way msg_type msg c.base) × Left c'.base r))
Settled c way msg_type msg (returned other_error c' r) =
    (c'.socket ≡ none)
    × (((c'.base ≡ fill_request way msg_type msg c.base) × Left c'.base r)
        ⊎ ((c'.base ≡ fill_request way msg_type msg (fill_request way msg_type msg c.base))
            × (Left (fill_request way msg_type msg c.base) r ⊎ Left c'.base r)))
Settled c way msg_type msg (stuck c') =
    (c'.base ≡ fill_request way msg_type msg c.base)
    ⊎ (c'.base ≡ fill_request way msg_type msg (fill_request way msg_type msg c.base))

module _ (c : ScClient) (way msg_type : ℕ) (msg : List ℕ) where
  -- What the first round leaves to the second.
  abbrev Before : ScClient → ReplyPointer → Type 0
  Before c₁ p =
      ((c₁.base ≡ c.base) × (p ≡ null))
      ⊎ ((c₁.base ≡ fill_request way msg_type msg c.base)
          × Left (fill_request way msg_type msg c.base) p)
