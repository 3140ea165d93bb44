-- ===== src/Flow/Protocol/Credit.antt =====
-- The packets under way between the client and the manager, against the manager's copy of the
-- client's tokens.
use emane.Base.{
  ℕ, ◌+◌, ◌-◌, ◌≤◌, ◌<◌, ◌≡◌, subst, sym, ◌⊎◌, true, false, some, List, [], ◌∷◌, ◌++◌, arith,
}
use emane.Flow.Manager
use emane.Flow.Manager.Bounds.{IsBounded}
use emane.Flow.Manager.{FlowControlManager}
use emane.Flow.Client
use emane.Flow.Client.{FlowControlClient}
use emane.Flow.Protocol.{
  Message, packet, report, System, Step, client_start, client_stop, client_take, client_send,
  client_update, manager_start, manager_stop, manager_add, manager_packet, manager_report, Reach,
  here, next,
}

-- With a credit of `a` packets before the first report of the queue, every packet of the queue is
-- covered, and `c` more at its end.
abbrev pub Fits : ℕ → List Message → ℕ → Type 0
Fits a [] c = c ≤ a
Fits a (packet ∷ ms) c = (0 < a) × Fits (a - 1) ms c
Fits a (report n ∷ ms) c = Fits n ms c

Fits-update : (a c n : ℕ) (ms : List Message) → Fits a ms c → Fits a (ms ++ report n ∷ []) n
Fits-update a c n [] f = omega arith
Fits-update a c n (packet ∷ ms) f = (f.0, Fits-update (a - 1) c n ms f.1)
Fits-update a c n (report k ∷ ms) f = Fits-update k c n ms f

Fits-packet :
    (a c : ℕ) (ms : List Message) → 0 < c → Fits a ms c → Fits a (ms ++ packet ∷ []) (c - 1)
Fits-packet a c [] h f = omega arith
Fits-packet a c (packet ∷ ms) h f = (f.0, Fits-packet (a - 1) c ms h f.1)
Fits-packet a c (report k ∷ ms) h f = Fits-packet k c ms h f

-- The manager's copy covers the credit `a` that its client has left, unless the manager waits for
-- an acknowledgement or is stopped; while it waits, its copy is the last update.
pub record IsCovered (m : FlowControlManager) (a : ℕ) : Type 0 where
  pub credit : (m.ack_pending ≡ true) ⊎ (m.total_tokens_available ≡ 0) ⊎ (a ≤ m.shadow_token_count)
  pub acked :
      (m.ack_pending ≡ false)
      ⊎ (m.total_tokens_available ≡ 0)
      ⊎ (m.last_tokens_update ≤ m.shadow_token_count)
  pub bounded : IsBounded m

add_token-IsCovered :
    (m : FlowControlManager) (a n : ℕ) → IsCovered m a → IsCovered (Manager.add_token m n).0 a
unfolding Manager.add_token
add_token-IsCovered m a n v = ground arith

start-IsCovered :
    (m : FlowControlManager) (a n : ℕ) → n < Manager.u16_mod → IsCovered (Manager.start m n).0 a
unfolding Manager.start
start-IsCovered m a n h = ground arith

stop-IsCovered : (m : FlowControlManager) (a : ℕ) → IsCovered m a → IsCovered (Manager.stop m) a
unfolding Manager.stop
stop-IsCovered m a v = ground arith

process-IsCovered :
    (m : FlowControlManager) (a n : ℕ)
    → IsCovered m a
    → IsCovered (Manager.process_flow_control_message m n).0 n
unfolding Manager.process_flow_control_message
process-IsCovered m a n v = ground arith

remove_token-IsCovered :
    (m : FlowControlManager) (a : ℕ)
    → 0 < a
    → IsCovered m a
    → IsCovered (Manager.remove_token m).0 (a - 1)
unfolding Manager.remove_token
remove_token-IsCovered m a h v = ground arith

remove_token-no_wrap :
    (m : FlowControlManager) (a : ℕ)
    → 0 < a
    → IsCovered m a
    → (Manager.remove_token m).1.1 ≡ true
    → (Manager.remove_token m).0.shadow_token_count + 1 ≡ m.shadow_token_count
unfolding Manager.remove_token
remove_token-no_wrap m a h v e = ground arith

remove_token-takes :
    (m : FlowControlManager)
    → (Manager.remove_token m).1.1 ≡ true
    → (Manager.remove_token m).0.tokens_available + 1 ≡ m.tokens_available
unfolding Manager.remove_token
remove_token-takes m e = ground arith

-- `a` is what the client may still send before its next report arrives.
pub record Inv (s : System) (a : ℕ) : Type 0 where
  pub fits : Fits a s.downstream (s.client.tokens_available + s.in_hand)
  pub covered : IsCovered s.manager a

client_take-Fits :
    (c c' : FlowControlClient) (a n hand : ℕ) (ms : List Message)
    → Client.remove_token c ≡ some (c', (n, true))
    → Fits a ms (c.tokens_available + hand)
    → Fits a ms (c'.tokens_available + (hand + 1))
unfolding Client.remove_token
client_take-Fits c c' a n hand ms e f =
    let same : c'.tokens_available + (hand + 1) ≡ c.tokens_available + hand = ground arith in
    subst (λ x. Fits a ms x) (sym same) f

client_send-Fits :
    (a tokens hand : ℕ) (ms : List Message)
    → 0 < hand
    → Fits a ms (tokens + hand)
    → Fits a (ms ++ packet ∷ []) (tokens + (hand - 1))
client_send-Fits a tokens hand ms h f =
    let same : tokens + hand - 1 ≡ tokens + (hand - 1) = omega arith in
    subst (λ x. Fits a (ms ++ packet ∷ []) x) same
      (Fits-packet a (tokens + hand) ms (omega arith) f)

report-Fits :
    (a c n hand : ℕ) (ms : List Message)
    → hand ≡ 0
    → Fits a ms c
    → Fits a (ms ++ report n ∷ []) (n + hand)
report-Fits a c n hand ms h f =
    let same : n ≡ n + hand = omega arith in
    subst (λ x. Fits a (ms ++ report n ∷ []) x) same (Fits-update a c n ms f)

-- The invariant, as long as no packet was overtaken.
abbrev HasInv : System → Type 0
HasInv s = s.overtaken ≡ 0 → (a : ℕ) × Inv s a

Step-Inv : {s t : System} → Step s t → HasInv s → HasInv t
unfolding Client.start Client.stop Client.process_flow_control_message
Step-Inv (client_start s) inv calm =
    let (a, v) = inv (omega (arith, calm)) in
    (
      a,
      record {
        fits =
            report-Fits a _ s.client.tokens_available s.in_hand s.downstream (omega (arith, calm))
              v.fits;
        covered = v.covered;
      },
    )
Step-Inv (client_stop s) inv calm =
    let (a, v) = inv calm in (a, record { fits = v.fits; covered = v.covered })
Step-Inv (client_take s c n e) inv calm =
    let (a, v) = inv calm in
    (
      a,
      record {
        fits = client_take-Fits s.client c a n s.in_hand s.downstream e v.fits;
        covered = v.covered;
      },
    )
Step-Inv (client_send s h) inv calm =
    let (a, v) = inv calm in
    (
      a,
      record {
        fits = client_send-Fits a s.client.tokens_available s.in_hand s.downstream h v.fits;
        covered = v.covered;
      },
    )
Step-Inv (client_update s u us e) inv calm =
    let (a, v) = inv (omega (arith, calm)) in
    (
      a,
      record {
        fits = report-Fits a _ u s.in_hand s.downstream (omega (arith, calm)) v.fits;
        covered = v.covered;
      },
    )
Step-Inv (manager_start s total h) inv calm =
    let (a, v) = inv calm in
    (a, record { fits = v.fits; covered = start-IsCovered s.manager a total h })
Step-Inv (manager_stop s) inv calm =
    let (a, v) = inv calm in
    (a, record { fits = v.fits; covered = stop-IsCovered s.manager a v.covered })
Step-Inv (manager_add s n) inv calm =
    let (a, v) = inv calm in
    (a, record { fits = v.fits; covered = add_token-IsCovered s.manager a n v.covered })
Step-Inv (manager_packet s ms e) inv calm =
    let (a, v) = inv calm in
    let f = subst (λ d. Fits a d (s.client.tokens_available + s.in_hand)) e v.fits in
    (a - 1, record { fits = f.1; covered = remove_token-IsCovered s.manager a f.0 v.covered })
Step-Inv (manager_report s n ms e) inv calm =
    let (a, v) = inv calm in
    let f = subst (λ d. Fits a d (s.client.tokens_available + s.in_hand)) e v.fits in
    (n, record { fits = f; covered = process-IsCovered s.manager a n v.covered })

Reach-Inv : {s : System} → Reach s → HasInv s
unfolding Manager.new Client.new
Reach-Inv here calm = (0, record { fits = omega arith; covered = ground arith })
Reach-Inv (next r st) calm = Step-Inv st (Reach-Inv r) calm

-- Where packets and reports of the client arrive in the order in which they are sent: in every state that
-- the manager and its client can reach together, as long as no report overtook a packet whose token was
-- taken before it, a packet that the manager accepts takes one token from both of its
-- counters, with no wrap-around, and leaves both `u16`s.
pub Reach-no_wrap :
    {s : System} (ms : List Message)
    → Reach s
    → s.overtaken ≡ 0
    → s.downstream ≡ packet ∷ ms
    → (Manager.remove_token s.manager).1.1 ≡ true
    → let m = (Manager.remove_token s.manager).0 in
      (m.shadow_token_count + 1 ≡ s.manager.shadow_token_count)
      × (m.tokens_available + 1 ≡ s.manager.tokens_available)
      × IsBounded m
Reach-no_wrap {s} ms r calm e h =
    let (a, v) = Reach-Inv r calm in
    let f = subst (λ d. Fits a d (s.client.tokens_available + s.in_hand)) e v.fits in
    (
      remove_token-no_wrap s.manager a f.0 v.covered h,
      remove_token-takes s.manager h,
      (remove_token-IsCovered s.manager a f.0 v.covered).bounded,
    )
