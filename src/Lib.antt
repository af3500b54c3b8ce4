-- ===== src/Lib.antt =====
-- A model of rawrtc-data-channel, the WebRTC data channel library of RAWRTC in C: data channels over
-- SCTP over an external DTLS transport. Paths are those of the repository.
--
-- The parts, and the files that model them:
-- - Parameters: src/data_channel_parameters, and the channel types of include/rawrtcdc. What an
--   application asks of a channel.
-- - Dcep: the data channel establishment protocol in src/sctp_transport/transport.c, which writes
--   and parses open and ack messages (`data_channel_open_message_create` and `_parse`,
--   `data_channel_ack_message_create`).
-- - Channel: the channel object of src/data_channel/channel.h and the context that the SCTP
--   transport keeps for it. Channel/Attributes has src/data_channel/attributes.c.
-- - Transport: `struct rawrtc_sctp_transport`. Its children follow transport.c: Transport/Send sends
--   and queues messages (`sctp_transport_send`, `sctp_send`, `send_message` and the deferred
--   messages), Transport/State has the states of the transport and its channels (`set_state`,
--   `close_data_channels`, `rawrtc_sctp_transport_stop`), Transport/Reset the notifications of
--   usrsctp with the closing handshake, Transport/Channels the handlers that create, close and send
--   on a channel, Transport/Receive incoming messages, Transport/Events the handlers of the
--   socket's events and the loop of the upcall, Transport/Packets what goes below SCTP
--   (`sctp_packet_handler`, `rawrtc_sctp_transport_feed_inbound`), Transport/Create the creation and
--   the destructor, Transport/Start the start, Transport/Options the socket options, and
--   Transport/Api what the application calls (src/data_channel). Transport/Runs and
--   Transport/Lifecycle have the sequences of all these. Transport/Arrival,
--   Transport/Establishment and Transport/Teardown join two peers: what one of them gives to
--   usrsctp is what the other one receives, and a stream that one resets is reset on both.
--   Transport/Attributes has src/sctp_transport/attributes.c and src/sctp_capabilities.
--   Transport/Registry says when the table of channels is well formed.
-- - Transport/Generic: src/data_transport, the table of functions of a data transport, and
--   `rawrtc_sctp_transport_get_data_transport`, which fills it.
-- - Checksum: the checksum field of the SCTP header.
-- - Redirect: src/sctp_redirect_transport. Redirect patches and passes on packets, Redirect/Life has
--   creation, start and stop, Redirect/Runs the sequences of these operations.
-- - Main: src/main/main.c, the start and the end of the library and the tick of its timer.
-- - Names: the names of states and algorithms, of the files utils.c.
-- - External: what the source takes from libre, rawrtcc, the C library and the DTLS transport. The
--   records Libre, Dtls, Sctp (in Transport), Crc (in Checksum), Net (in Redirect), Copier (in
--   Parameters/Copies) and Platform (in Transport/Create/Steps) are parameters, with documented
--   behaviour as laws. External/Host, Transport/Host, Checksum/Host and Redirect/Host fill them
--   with concrete functions for the tests.
-- Base has the helpers: lists and tests on native numbers, and the result codes.
--
-- State is passed explicitly: an operation takes the transport and returns it, with a code where
-- the source returns one. Channels live in a store, by address, and the table holds addresses, so
-- that two slots may alias. Calls that leave the library are recorded, the latest first, in `wire`
-- (what `usrsctp_sendv` took), `resets` (the stream resets that usrsctp was asked for) and `events`
-- (handlers of the application, packets, socket options, the trace file). Not recorded are the
-- calls that bind or connect a socket of usrsctp or read its options, and those that create the raw
-- socket of a redirect transport; what they answer is part of the model. What usrsctp or an
-- allocation answers depends on the moment of the call, `clock`, and on nothing that is known here.
-- A handler of the application does not call back into the library, with one exception: that of the
-- buffered amount low event is an arbitrary function on transports.
--
-- Loops run on fuel where the source has no bound that is a structure: the send loop has one round
-- for each byte that is left and one more, since each round but the last sends a byte; the sender
-- dry loop and the search for a stream identifier have one for each slot, since they visit no slot
-- twice. The loop of the upcall has no bound in the source, since it ends when usrsctp reports no
-- more events: the number of rounds is a parameter, and `none` says that events are left. Byte
-- order is that of a little-endian host. Lengths of buffers are not bounded by the size of a word.
--
-- Not modelled: reference counting and the freeing of memory (what is freed stays in the store and
-- is not used), the argument that handlers are given (so that `rawrtc_data_channel_set_arg` is left
-- out), debug output, and the CRC32-C routines (third-party code: the checksum is a parameter).
-- A variable that the source reads before it is set is an arbitrary value.
pub mod Base
pub mod External
pub mod Main
pub mod Names
pub mod Parameters
pub mod Dcep
pub mod Channel
pub mod Transport
pub mod Checksum
pub mod Redirect
