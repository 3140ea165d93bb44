-- ===== src/Flow/Tests.antt =====
-- Runs of the flow control components at concrete inputs.
use emane.Base.{ℕ, ◌+◌, ◌≡◌, refl, true, false, some, [], arith}
use emane.Flow.Manager
use emane.Flow.Manager.{FlowControlManager}
use emane.Flow.Manager.Bounds.{
  IsBounded, step, starts, new-IsBounded, step-IsBounded, add_token_lem,
}
use emane.Flow.Client
use emane.Flow.Client.{FlowControlClient}
use emane.Flow.Protocol.{
  System, init, take_update, start_manager, start_client, take_token, send_packet, add_token,
  take_packet, take_report, Reach, here, next, client_start, client_take, client_send,
  client_update, manager_start, manager_add, manager_packet, manager_report,
}
use emane.Flow.Protocol.Credit.{Reach-no_wrap}

-- Three tokens of five are held, and the client believes that it has none.
abbrev drained : FlowControlManager
drained = record {
  tokens_available = 3;
  total_tokens_available = 5;
  shadow_token_count = 0;
  last_tokens_update = 5;
  ack_pending = false;
}

step-IsBounded_example : IsBounded (step Manager.new (starts 5))
step-IsBounded_example = step-IsBounded Manager.new (starts 5) (omega arith) new-IsBounded

drained-IsBounded : IsBounded drained
drained-IsBounded = omega arith

-- The last token of the total is added, and the client is told of all of them.
drained_add : (Manager.add_token drained 2).1 ≡ (5, true, some 5)
unfolding Manager.add_token
drained_add = refl

drained_full : (Manager.add_token drained 3).1 ≡ (3, false, some 3)
unfolding Manager.add_token
drained_full = refl

add_token_lem_example :
    (Manager.add_token drained 2).1.0 ≡ (Manager.add_token drained 2).0.tokens_available
add_token_lem_example = (add_token_lem drained 2 drained-IsBounded).1

-- The manager starts with two tokens, the client learns of them and acknowledges, and sends one
-- packet.
abbrev acknowledged : System
unfolding Manager.new Client.new Manager.start Manager.process_flow_control_message
    Client.process_flow_control_message
acknowledged = take_report (take_update (start_manager init 2) 2 []) 2 []

acknowledged-Reach : Reach acknowledged
unfolding Manager.new Client.new Manager.start Manager.process_flow_control_message
    Client.process_flow_control_message
acknowledged-Reach =
    next
      (next (next here (manager_start init 2 (omega arith)))
        (client_update (start_manager init 2) 2 [] refl))
      (manager_report (take_update (start_manager init 2) 2 []) 2 [] refl)

-- A client that holds some tokens.
abbrev holding : ℕ → FlowControlClient
holding n = record { tokens_available = n; cancel = false }

abbrev sending : System
sending = send_packet (take_token acknowledged (holding 1))

sending-Reach : Reach sending
unfolding Manager.new Client.new Manager.start Manager.process_flow_control_message
    Client.process_flow_control_message Client.remove_token
sending-Reach =
    next (next acknowledged-Reach (client_take acknowledged (holding 1) 1 refl))
      (client_send (take_token acknowledged (holding 1)) (omega arith))

Reach-no_wrap_example : (Manager.remove_token sending.manager).0.shadow_token_count + 1 ≡ 2
unfolding Manager.new Client.new Manager.start Manager.process_flow_control_message
    Client.process_flow_control_message Manager.remove_token
Reach-no_wrap_example = (Reach-no_wrap {s = sending} [] sending-Reach refl refl refl).0

-- A thread takes a token, and before it sends its packet the client reports twice: its packet
-- comes behind the second report, and one packet more is under way than the manager knows of.
abbrev held : System
held = take_token acknowledged (holding 1)

abbrev reported : System
unfolding Manager.new Client.new Manager.start Client.start Manager.process_flow_control_message
    Client.process_flow_control_message
reported = take_report (start_client held) 1 []

abbrev overtaken : System
unfolding Manager.new Client.new Manager.start Client.start Manager.process_flow_control_message
    Client.process_flow_control_message
overtaken = take_report (take_update reported 2 []) 2 []

-- The manager takes the late packet, gets a token back, and takes another packet; a third one follows.
abbrev after_late : System
unfolding Manager.new Client.new Manager.start Client.start Manager.process_flow_control_message
    Client.process_flow_control_message Manager.remove_token Manager.add_token
after_late = add_token (take_packet (send_packet overtaken) []) 1

abbrev after_second : System
unfolding Manager.new Client.new Manager.start Client.start Manager.process_flow_control_message
    Client.process_flow_control_message Manager.remove_token Manager.add_token
after_second = take_packet (send_packet (take_token after_late (holding 1))) []

abbrev third_sent : System
unfolding Manager.new Client.new Manager.start Client.start Manager.process_flow_control_message
    Client.process_flow_control_message Manager.remove_token Manager.add_token
third_sent = send_packet (take_token after_second (holding 0))

third_sent-Reach : Reach third_sent
unfolding Manager.new Client.new Manager.start Client.start Manager.process_flow_control_message
    Client.process_flow_control_message Manager.remove_token Manager.add_token Client.remove_token
third_sent-Reach =
    let r0 : Reach held = next acknowledged-Reach (client_take acknowledged (holding 1) 1 refl) in
    let r1 : Reach reported =
      next (next r0 (client_start held)) (manager_report (start_client held) 1 [] refl) in
    let r2 : Reach overtaken =
      next (next r1 (client_update reported 2 [] refl))
        (manager_report (take_update reported 2 []) 2 [] refl) in
    let r3 : Reach after_late =
      next
        (next (next r2 (client_send overtaken (omega arith)))
          (manager_packet (send_packet overtaken) [] refl))
        (manager_add (take_packet (send_packet overtaken) []) 1) in
    let r4 : Reach after_second =
      next
        (next (next r3 (client_take after_late (holding 1) 1 refl))
          (client_send (take_token after_late (holding 1)) (omega arith)))
        (manager_packet (send_packet (take_token after_late (holding 1))) [] refl) in
    next (next r4 (client_take after_second (holding 0) 0 refl))
      (client_send (take_token after_second (holding 0)) (omega arith))

third_sent_wraps : (Manager.remove_token third_sent.manager).0.shadow_token_count ≡ 65535
unfolding Manager.new Client.new Manager.start Client.start Manager.process_flow_control_message
    Client.process_flow_control_message Manager.remove_token Manager.add_token
third_sent_wraps = refl
