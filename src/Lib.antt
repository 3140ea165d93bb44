-- ===== src/Lib.antt =====
-- The emulation middleware's transport and medium access cores, in rust/: flow control between a
-- transport and an emulator, packets over the air, the boundary between a NEM and its transport, the
-- control messages of the layers, the layers' task queues, timers, queue metrics, and the TDMA radio
-- model's schedule and queues.
--
-- How the parts interact. A radio model (`TdmaMac`) hands a frame to the physical layer, which gives
-- it to the OTA manager; that cuts the events, the control messages and the packet into datagrams
-- and multicasts them. The manager of every other emulator puts the parts together and calls its
-- users. A transport sends packets down to a radio model under flow control: a manager beside the
-- model counts tokens, and a client beside the transport holds a copy of the count. A transport in
-- another process is joined by a boundary endpoint at each end. Layers give each other packets with
-- control messages, encoded as emane-plugin-api says, by tasks in the queue of the layer that is called.
--
-- Base: Booleans, lists and byte strings over the native numbers, `HashMap` as `Dict` (a list of
--   entries), `BTreeMap` as `SortedMap`.
-- Flow: rust/emane-core/src/flow_control_manager.rs is Flow/Manager.antt, with its C interface in
--   Manager/Ffi.antt, and flow_control_client.rs is Flow/Client.antt; functions keep their names.
--   Flow/Protocol.antt puts a manager, a client and the two queues of messages between them into one
--   state and gives the steps that the two can take, a packet being sent some time after its token is
--   taken, without the client's lock. That the queues keep their order is taken for granted.
-- Ota: rust/emane-core/src/ota_manager.rs. Types.antt has the structs; Wire.antt the datagram;
--   Send.antt the loop of `emane_rs_ota_manager_send_ota_packet`, and Manager/Send.antt the checks
--   around it; Receive.antt the checks of `emane_rs_ota_manager_process_loop` on a datagram;
--   Reassembly.antt its branch for fragments; Manager.antt `handle_ota_message`, opening, closing and
--   users; Manager/Loop.antt one round of the loop with its cleanup. RoundTrip.antt and its modules join
--   the sender and the receiver: Datagrams.antt one datagram, Rounds.antt and Arrivals.antt the rounds of
--   the loop, Traffic.antt a packet's datagrams among others. Statistics.antt is `OtaStatistics`.
-- QueueMetric: rust/emane-core/src/queue_metric_manager.rs, with its C interface in QueueMetric/Ffi.antt.
-- Tdma: rust/plugins/tdma/src/lib.rs. Schedule.antt is `Schedule`, Event.antt is `parse_schedule` on a
--   decoded event, Queue.antt and Queue/Take.antt are `queue_index` and `take_transmission`;
--   Receive.antt is `complete_receive` from where a frame was received well, with `expire_reassembly`.
-- Timer: rust/emane-core/src/timer_service.rs. Timer.antt has the operations, and the thread's loop cut
--   where it gives up its lock; Timer/Thread.antt the steps of the thread and of its callers.
--
-- Boundary: rust/emane-core/src/boundary_message_manager.rs. Controls.antt and Message.antt have the
--   encoders and decoders; Endpoint.antt `send`, the calls around it and `close`; Stream.antt
--   `receive_stream` and `dispatch`. Message/RoundTrip.antt, Stream/Drain.antt, Stream/Cut.antt and
--   Stream/Delivery.antt join the two ends.
-- Api: rust/emane-plugin-api/src/lib.rs, the control messages. Headers.antt and Properties.antt have
--   those of a fixed length; Entries.antt what the tables share, which Metrics.antt and Segments.antt
--   use; Interest.antt `FrequencyOfInterest`; Cursor.antt reading at an offset, which Pattern.antt,
--   MimoTx.antt, RxAntenna.antt and MimoRx.antt use; Message.antt puts all of them under their ids.
--   A function is named for its type: `encode_model_header` is `ModelHeader::encode`.
-- Layer: rust/emane-core/src/nem_queued_layer.rs. Layer.antt has `start`, `stop` in its two parts,
--   `enqueue`, the steps of the worker thread, and how all of them interleave; Order.antt, Progress.antt
--   and Drain.antt are about the tasks.
--
-- State is passed on explicitly. A `u16`, `u32`, `u64` or `usize` (of 64 bits) is a number, with its
-- wrap-around or its saturation written out where the code can reach it. In the control messages a
-- float is its bit pattern, and an `i64` its cast to `u64`. A time is a number, and a
-- clock is an argument. Protobuf encoders and decoders, socket answers, and the test that a float is
-- finite are arguments; powers are of any type. Calls of callbacks, of statistics tables and of the
-- event service are returned as lists of effects.
--
-- Fuel: the send loop takes a round for each byte, since each round sends one byte or more; the code
-- of `take_transmission` calls itself after it has dropped a packet, so that one more than the number
-- of waiting packets is enough. The loop of `receive_stream` takes a message of six bytes or more in
-- each round, so that one round more than there are bytes is enough.
--
-- Not modelled: the set-up of boundary sockets and their accept, connect and UDP loops, the
-- statistics and file descriptors of a layer's queue, the traffic counters of emane-plugin-api, the
-- physical layer, propagation and antennas (floating point), the other radio models, the rest of
-- the TDMA model (timers, statistics, pending receptions), the NEM manager, the registry of
-- statistics, sockets, configuration and XML, the Python interface, the C interfaces but those
-- named above, and generated protobuf code.
pub mod Base
pub mod Flow
pub mod Ota
pub mod QueueMetric
pub mod Tdma
pub mod Timer
pub mod Boundary
pub mod Api
pub mod Layer
