-- ===== src/Lib.antt =====
-- samsung_nasa talks to Samsung air conditioners over their serial bus. A packet goes out as
-- preamble, start byte, length, encoded packet, CRC and end byte; on the other side a streaming
-- parser finds the frames again and the packet parser reads their contents. A daemon owns the bus and
-- shares it among its clients. The client crate sends requests, repeats them until a reply comes, and
-- hands notifications on; the mqtt program keeps the state of one air conditioner from them, publishes
-- it and turns MQTT messages into requests; the metrics program keeps the last values of all devices;
-- the monitor prints packets. This library models all of these, from the bytes of the two protocol
-- layers up to the tasks of the programs.
--
-- Parts of the program, and the files that model them:
--   protocol/src/frame.rs    Crc (crc16, bit by bit as the loops do it) and Frame (FrameParser,
--                            feed, feed_byte). Frame/Run is what a caller of feed sees over a run of
--                            bytes; Frame/Wire is the frame format as a definition of its own.
--   protocol/src/packet.rs   Packet: a file for each type (Address, PacketInfo, PacketType, DataType,
--                            MessageKind, Value, Types, Error), PacketReader in Reader, Packet::parse
--                            in Parse, PacketWriter in Writer, serialize and serialize_frame in
--                            Serialize; the text of an address in Address/Text.
--                            Packet/Encoding is the packet format, independent of both.
--   protocol/src/message.rs, message/convert.rs and message/types.rs
--                            Messages (one constructor of Known for each alias of TypedMessage),
--                            Messages/Convert (the traits, as records) and Messages/Types.
--   protocol/src/pretty.rs   Pretty.
--   client/src/transport.rs  Client/Transport: serialize_frame, packet_stream, try_read, read, send.
--   client/src/message.rs    Client/MessageSet: get and try_get.
--   client/src/lib.rs        Client/Requests (packet numbers, queries, the packet of a request,
--                            send_with_retry, expect_reply; the calls send, read and request in
--                            Requests/Calls), Client/Reader (reader_task, on_reply), and
--                            Client/Exchange, the turns of all of them as a step relation.
--   busd/src/main.rs         Busd: Peer, recv_stream, send_task, poll_peers, and multiplex as
--                            on_packet, serve and multiplex. Busd/Vector is Vec::swap_remove.
--   mqtt/src/control.rs      Mqtt/Control (State, update_state, TempRange, range, clamp) and
--                            Mqtt/Control/Unit (SamsungHvac::new, on_notification, read_state,
--                            read_params, request).
--   mqtt/src/types.rs        Mqtt/Modes: HvacMode and FanMode, hvac_mode, the mode and fan commands.
--   mqtt/src/util.rs         Mqtt/Cell: NotifyCell.
--   mqtt/src/mqtt.rs         Mqtt/Topics (Topics::new), Mqtt/Bridge (on_event, on_message) and
--                            Mqtt/Bridge/Tasks (update_state_task, availability_task, announce_task,
--                            device_config).
--   metrics/src/main.rs      Metrics: on_packet, run_bus, get_message, render_metrics.
--   monitor/src/main.rs      Monitor: monitor.
-- Base, Bits and Bytes hold shared lemmas, Examples the runs on concrete packets.
--
-- How the model corresponds to the code. A Rust function that can fail returns a Result, which has
-- `panic` as a third outcome, for a failed expect or unwrap, an index out of range, and
-- unreachable!(). A method with &mut self is a function from the value to the result and the new
-- value (Base/Stateful). u8, u16 and u32 are native numbers; the theorems assume the bounds where
-- they matter (IsByte, IsBytes, IsValid), and shifts and subtractions are written with their
-- wrap-around or check. The fields named `data` in the source are `payload` and `contents` here, and
-- so is the enum Data. Most loops run over lists, with no fuel: the bits of a byte, the bytes of a
-- read, the messages that the count byte announces, the rounds of a request. The two loops of the
-- daemon and that of the monitor run on fuel: poll_peers has one try for each peer and one more, the
-- loop of multiplex one round for each packet that has come in and one more, and the monitor one for
-- each packet and one more. The decimal text of a number has room for ten
-- digits, as many as a u32 has.
--
-- The crates heapless, ux and bytes are not in the repository. Crates is the record of the calls the
-- program makes of them with the behaviour it relies on, and every definition that uses them takes
-- it; `plain` fills it. Busd.Channels is the same for the bounded channels of tokio. The packet stream
-- takes the results of its reads as a list, and the daemon's streams are seen by the packets that have
-- come in. A request takes what becomes of its rounds, a failed write, a reply, a dropped channel or a
-- timeout, as a list, and still waits where the list ends; in Client/Exchange the same outcomes are
-- steps. The map of waiting requests is a function from packet numbers, the maps of the exporter are
-- their entries in the order in which they are gone over. Temperatures are tenths of a degree: the
-- parsing and the text of a float are parameters of the bridge, and so is the JSON of a document. A
-- page of the exporter is a list of samples, each a metric with its labels and its value.
--
-- Not modelled: logging, the opening of sockets and serial ports, command lines, the configuration
-- file and its types, the spawning of tasks, the event loop of the MQTT client, the HTTP server, and
-- from_float and as_float.
pub mod Base
pub mod Bits
pub mod Busd
pub mod Bytes
pub mod Client
pub mod Crates
pub mod Crc
pub mod Examples
pub mod Frame
pub mod Messages
pub mod Metrics
pub mod Monitor
pub mod Mqtt
pub mod Packet
pub mod Pretty
