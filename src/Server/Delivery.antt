-- ===== src/Server/Delivery.antt =====
-- Whom a message reaches.
use dcschain.Base.{
  ℕ, ◌≡◌, refl, ◌∙◌, List, [], ◌∷◌, ◌++◌, map, Option, none, some, Text, Table, remove, text_eq,
  Bool-cases, inl, inr,
}
use dcschain.Mgmt.Types.{Chan}
use dcschain.Server.Outcome.{Outcome, done, blocks, ◌>>=◌}
use dcschain.Server.State.{Sent, to_inbox}
use dcschain.Server.Send.{fixedcast, gossip_to, broadcast_to}

-- The inboxes behind a map of channels, if none of them is nil.
abbrev inboxes : Table Chan → Option (List ℕ)
inboxes [] = some []
inboxes ((k, none) ∷ t) = none
inboxes ((k, some c) ∷ t) = elim (inboxes t) [ none ↦ none | some cs ↦ some (c ∷ cs) ]

-- One copy into each inbox; without them the call blocks.
abbrev copies : List ℕ → Option (List ℕ) → Outcome (List Sent)
copies json none = blocks
copies json (some cs) = done (map (λ c. to_inbox c json) cs)

broadcast_copies : (t : Table Chan) (json : List ℕ) → broadcast_to t json ≡ copies json (inboxes t)
unfolding broadcast_to fixedcast
broadcast_copies [] json = refl
broadcast_copies ((k, none) ∷ t) json = refl
broadcast_copies ((k, some c) ∷ t) json = go (inboxes t) (broadcast_copies t json)
  where
    go :
        (o : Option (List ℕ))
        → broadcast_to t json ≡ copies json o
        → (broadcast_to t json >>= λ y. done ((to_inbox c json ∷ []) ++ y))
          ≡ copies json (elim o [ none ↦ none | some cs ↦ some (c ∷ cs) ])
    go none e = rw e refl
    go (some cs) e = rw e refl

gossip-remove :
    (t : Table Chan) (json : List ℕ) (self : Text)
    → gossip_to t json self ≡ broadcast_to (remove self t) json
unfolding gossip_to broadcast_to remove
gossip-remove [] json self = refl
gossip-remove ((k, c) ∷ t) json self = elim (Bool-cases (text_eq k self)) [
  | inl own ↦ rw own (gossip-remove t json self)
  | inr other ↦ rw (other, gossip-remove t json self) refl
]

-- A broadcast puts one copy into the inbox of each node of the map, the sender's included; gossip is
-- the broadcast to all but the sender. Either blocks if a channel among them is nil.
gossip-broadcast :
    (t : Table Chan) (json : List ℕ) (self : Text)
    → (broadcast_to t json ≡ copies json (inboxes t))
      × (gossip_to t json self ≡ copies json (inboxes (remove self t)))
gossip-broadcast t json self =
    (broadcast_copies t json, gossip-remove t json self ∙ broadcast_copies (remove self t) json)
