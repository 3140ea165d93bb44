-- ===== src/Boundary/Endpoint.antt =====
-- The state of a `BoundaryMessageManager`: `send`, `send_packet`, `send_control` and `close`. A poisoned
-- lock is not modelled. The answers of the sockets are arguments.
use emane.Base.{
  ℕ, Bool, true, false, Option, none, some, List, length, ◌==◌, if◌then◌else◌, ◌≡◌, refl, arith,
}
use emane.Base.Bytes.{Bytes}
use emane.Boundary.{
  FfiControlMessage, FfiPacket, Checked, valid, failed, closed, not_connected, short_write,
  failed_write,
}
use emane.Boundary.Message.{packet_message, controls_message}

-- Which sockets there are, whether the worker runs, and whether `cancel` is set.
pub record Endpoint : Type 0 where
  pub cancel : Bool
  pub udp : Bool
  pub tcp : Bool
  pub worker : Bool

-- The answers: to `send_to`, the number of bytes sent, or an error; to `write_all`, whether it succeeds.
pub record Sockets : Type 0 where
  pub send_to : Bytes → Option ℕ
  pub write_all : Bytes → Bool

-- What is handed to a socket.
pub data Output : Type 0 where
  udp_datagram : Bytes → Output
  tcp_write : Bytes → Output
  nothing : Output

unfoldable pub send : Sockets → Endpoint → Bytes → Output × Checked {0} Unit
send s e message =
    if e.cancel
    then (nothing, failed closed)
    else (if e.udp
        then (
          udp_datagram message,
          elim (s.send_to message) [
            | none ↦ failed failed_write
            | some sent ↦ if sent == length message then valid tt else failed short_write
          ],
        )
        else (if e.tcp
            then (tcp_write message, if s.write_all message then valid tt else failed failed_write)
            else (nothing, failed not_connected)))

abbrev pub send_made : Sockets → Endpoint → Checked Bytes → Output × Checked {0} Unit
send_made s e (valid message) = send s e message
send_made s e (failed why) = (nothing, failed why)

unfoldable pub send_packet :
    Sockets → Endpoint → FfiPacket → List FfiControlMessage → Output × Checked {0} Unit
send_packet s e p cs = send_made s e (packet_message p cs)

unfoldable pub send_control :
    Sockets → Endpoint → List FfiControlMessage → Output × Checked {0} Unit
send_control s e cs = send_made s e (controls_message cs)

-- The worker's thread is joined.
unfoldable pub close : Endpoint → Endpoint
close e = record { cancel = true; udp = false; tcp = false; worker = false }

-- The message is handed over whole, to the socket that there is.
abbrev pub IsHanded : Sockets → Endpoint → Output → Bytes → Type 0
IsHanded s e (udp_datagram sent) message =
    (sent ≡ message) × (e.udp ≡ true) × (s.send_to message ≡ some (length message))
IsHanded s e (tcp_write sent) message =
    (sent ≡ message) × (e.udp ≡ false) × (e.tcp ≡ true) × (s.write_all message ≡ true)
IsHanded s e nothing message = ⊥

send-IsHanded :
    (s : Sockets) (e : Endpoint) (message : Bytes)
    → (send s e message).1 ≡ valid tt
    → (e.cancel ≡ false) × IsHanded s e (send s e message).0 message
unfolding send
send-IsHanded s e message h = ground arith

-- A call of `send_packet` succeeds only on an endpoint that is not closed, with a message that it
-- could make of its arguments, and then the UDP socket took all of that message, or, where there
-- is no UDP socket, the TCP stream did.
pub send_packet-IsHanded :
    (s : Sockets) (e : Endpoint) (p : FfiPacket) (cs : List FfiControlMessage)
    → (send_packet s e p cs).1 ≡ valid tt
    → (message : Bytes) × (packet_message p cs ≡ valid message)
      × (e.cancel ≡ false)
      × IsHanded s e (send_packet s e p cs).0 message
unfolding send_packet
send_packet-IsHanded s e p cs h = made (packet_message p cs) h
  where
    made :
        (m : Checked Bytes)
        → (send_made s e m).1 ≡ valid tt
        → (message : Bytes) × (m ≡ valid message)
          × (e.cancel ≡ false)
          × IsHanded s e (send_made s e m).0 message
    made (valid message) h =
        let (running, handed) = send-IsHanded s e message h in (message, refl, running, handed)
    made (failed why) h = cc
