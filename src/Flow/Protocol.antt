-- ===== src/Flow/Protocol.antt =====
-- The manager and its client together. A thread of the client takes a token under the client's lock, and
-- sends its packet later, without the lock; a report of the tokens that the client holds is sent under the
-- lock. Packets and reports go over one queue, in order, and the updates of the manager over another.
pub mod Credit
use emane.Base.{
  ℕ, ◌+◌, ◌-◌, ◌≤◌, ◌<◌, ◌≡◌, ◌⊎◌, inl, inr, true, false, Option, none, some, List, [], ◌∷◌, ◌++◌,
  arith,
}
use emane.Flow.Manager
use emane.Flow.Manager.{FlowControlManager}
use emane.Flow.Client
use emane.Flow.Client.{FlowControlClient}

pub data Message : Type 0 where
  packet : Message
  report : ℕ → Message

-- `in_hand` counts the tokens that are taken and whose packets are not yet sent. `overtaken` counts the
-- packets that a report overtook: their tokens were taken before it, and they come behind it.
pub record System : Type 0 where
  pub manager : FlowControlManager
  pub client : FlowControlClient
  pub downstream : List Message
  pub updates : List ℕ
  pub in_hand : ℕ
  pub overtaken : ℕ

abbrev pub init : System
unfolding Manager.new Client.new
init = record {
  manager = Manager.new;
  client = Client.new;
  downstream = [];
  updates = [];
  in_hand = 0;
  overtaken = 0;
}

-- An update, if there is one, goes to the end of the queue.
abbrev pub push_update : List ℕ → Option ℕ → List ℕ
push_update us none = us
push_update us (some u) = us ++ u ∷ []

abbrev pub take_update : System → ℕ → List ℕ → System
take_update s u us =
    let (c, tokens) = Client.process_flow_control_message s.client u in
    record s {
      client = c;
      updates = us;
      downstream = s.downstream ++ report tokens ∷ [];
      overtaken = s.overtaken + s.in_hand;
    }

abbrev pub start_client : System → System
start_client s = record s {
  downstream = s.downstream ++ report (Client.start s.client) ∷ [];
  overtaken = s.overtaken + s.in_hand;
}

abbrev pub take_token : System → FlowControlClient → System
take_token s c = record s { client = c; in_hand = s.in_hand + 1 }

abbrev pub send_packet : System → System
send_packet s = record s { downstream = s.downstream ++ packet ∷ []; in_hand = s.in_hand - 1 }

abbrev pub start_manager : System → ℕ → System
start_manager s total =
    let (m, u) = Manager.start s.manager total in
    record s { manager = m; updates = s.updates ++ u ∷ [] }

abbrev pub add_token : System → ℕ → System
add_token s n =
    let (m, r) = Manager.add_token s.manager n in
    record s { manager = m; updates = push_update s.updates r.2 }

abbrev pub take_packet : System → List Message → System
take_packet s ms = record s { manager = (Manager.remove_token s.manager).0; downstream = ms }

abbrev pub take_report : System → ℕ → List Message → System
take_report s n ms =
    let (m, u) = Manager.process_flow_control_message s.manager n in
    record s { manager = m; downstream = ms; updates = push_update s.updates u }

-- The calls that the two sides may make, in any order.
pub data Step : System → System → Type 0 where
  client_start : (s : System) → Step s (start_client s)
  client_stop : (s : System) → Step s (record s { client = Client.stop s.client })
  client_take :
      (s : System) (c : FlowControlClient) (n : ℕ)
      → Client.remove_token s.client ≡ some (c, (n, true))
      → Step s (take_token s c)
  client_send : (s : System) → 0 < s.in_hand → Step s (send_packet s)
  client_update :
      (s : System) (u : ℕ) (us : List ℕ) → s.updates ≡ u ∷ us → Step s (take_update s u us)
  manager_start :
      (s : System) (total : ℕ) → total < Manager.u16_mod → Step s (start_manager s total)
  manager_stop : (s : System) → Step s (record s { manager = Manager.stop s.manager })
  manager_add : (s : System) (n : ℕ) → Step s (add_token s n)
  manager_packet :
      (s : System) (ms : List Message) → s.downstream ≡ packet ∷ ms → Step s (take_packet s ms)
  manager_report :
      (s : System) (n : ℕ) (ms : List Message)
      → s.downstream ≡ report n ∷ ms
      → Step s (take_report s n ms)

pub data Reach : System → Type 0 where
  here : Reach init
  next : {s t : System} → Reach s → Step s t → Reach t
