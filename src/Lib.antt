-- ===== src/Lib.antt =====
-- The binary market data feed handler: its wire protocol, its order book, the sequencing and recovery
-- of packets, the publishing loop, both command lines and mains, and the two programs together.
--
-- The program. exchange_sim makes random order messages, packs them into UDP packets with a sequence
-- number, keeps every packet in a PacketHistory, and may leave a packet unsent. A RecoveryServer thread
-- answers requests for ranges of sequence numbers from that history over TCP. feed_handler receives the
-- packets, buffers those that come early, asks a RecoveryClient for the missing range, replays what
-- comes back, drains the buffer, and applies each message to an OrderBook, whose best bid and ask it
-- compares before and after. Both use the wire protocol.
--
-- Files, and the source that each models:
--   Prelude       shared names, lists over native numbers, Boolean tests, results
--   Map           std::map and std::unordered_map with unsigned keys, as sorted lists of entries; its
--                 children have the lookup laws, the order of keys, sums over entries, and
--                 extensionality
--   Text          texts as lists of character codes; of the standard library, the comparison of
--                 std::string_view, std::from_chars for unsigned numbers, and `<<` of a number;
--                 Text/Pieces has what equal texts have in common
--   CommandLine   src/feed_handler/main.cpp and src/exchange_sim/main.cpp: parse_unsigned, require_value
--                 and the loop over the arguments, which both programs have alike
--   Wire          include/bmdfh/protocol.hpp and src/common/protocol.cpp: Wire/Bytes for the byte order,
--                 Wire/Structs for the packed structs, make_ and decode_ functions, Wire/Layout for the
--                 images of the structs in memory, Wire/Packet for serialize_packet, parse_packet and
--                 message_at, Wire/Describe for to_string and describe; Wire/Fields and the children
--                 of Wire/Packet have the proofs
--   Book          include/bmdfh/order_book.hpp and src/common/order_book.cpp: OrderBook, its four handlers
--                 (apply_add, apply_modify, apply_delete, apply_trade), apply and bbo. Book/Invariant says
--                 what a well-formed book is, Book/Spec what the messages mean without levels, and
--                 Book/Format is format_bbo
--   Udp           src/common/udp_multicast.cpp: UdpMulticastSender::send and
--                 UdpMulticastReceiver::try_receive
--   Sockets       src/common/udp_multicast.cpp and src/common/recovery.cpp: the constructors,
--                 create_listen_socket, ensure_connected and close_if_open, as far as they open and close
--                 descriptors; EpollInstance of src/feed_handler/main.cpp in the same way. Sockets/Scopes
--                 is an object with a descriptor, from its constructor to its destructor
--   Feed          src/feed_handler/main.cpp: the state of main and its lambdas process_packet_bytes,
--                 drain_buffered_packets, request_replay and the handling of a datagram. Feed/Options is
--                 parse_args, Feed/Loop the event loop with EpollInstance::wait, Feed/Report the text of
--                 the statistics, and Feed/Main is main from the command line to the exit, with
--                 pin_current_thread_to_cpu. The other children have the proofs: over a published stream
--                 (Feed/Stream, Feed/Delivery, Feed/Wakes, Feed/Catchup, and Feed/Cut
--                 without a recovery server) and for any input (Feed/Keeping,
--                 Feed/Progress, Feed/Counters, Feed/Running)
--   History       include/bmdfh/recovery.hpp and src/common/recovery.cpp: PacketHistory
--   Channel       src/common/recovery.cpp: send_all and recv_exact_or_eof
--   Recovery      src/common/recovery.cpp: RecoveryServer::handle_client and
--                 RecoveryClient::request_packets; Recovery/Server is RecoveryServer::run, and
--                 Recovery/Serving has several clients with several requests
--   Simulator     src/exchange_sim/main.cpp: serialize_packet_to_buffer and its constants;
--                 Simulator/Options is parse_args, Simulator/Generator is MarketDataGenerator (Simulator/Orders: what
--                 its messages and live orders are),
--                 Simulator/Publisher the publishing loop of main, Simulator/Console has the lines that it
--                 prints, and Simulator/Main is main from the command line to the exit. Simulator/Published
--                 says what it is to publish; Simulator/Rounds and Simulator/Session have the proofs
--   System        what the publishing loop leaves, and what the event loop applies of it
--                 (System/Composition, System/LiveOrders), and the rounds of the publishing loop between the
--                 datagrams that the handler receives, as a relation of steps (System/Interleaving)
-- The Examples modules hold runs and the theorems at concrete inputs.
--
-- How it is modelled. A byte and an unsigned integer are natural numbers; arithmetic that can wrap has
-- its `% 2 ^ w` written out. The machine is little-endian, as the x86 processors are whose time stamp
-- counter the program reads, so a field's image is le_bytes and the network order is bswap. The members
-- of a packed struct are kept as they lie in memory, in network order. Exceptions are values (Result,
-- Option where there is no payload). State is passed on explicitly. The loop of drain_buffered_packets
-- has as fuel one more than the number of buffered packets, since each round removes one; that of
-- lookup_range has the length of the range and one more; that of the publishing loop one more than the
-- number of messages, since each round makes one at least. A loop without fuel is an error value of its
-- own, never a result. What the processor's counter and the operating system give (clock readings,
-- what ::epoll_wait, ::recvfrom and ::sendto return, random numbers, how many bytes each call of ::send
-- and ::recv transfers, the result of connecting) are inputs, and so are the sum and the quotient of two
-- long doubles.
--
-- Assumed. A std::size_t counter does not wrap. The sum of two long doubles is exact below 2 ^ 64, where
-- the 64 bits of their precision hold it; nothing is assumed of it above. Between the feed handler and
-- the recovery server the theorems of Feed take the answers as a hypothesis (Answers in Feed/Delivery);
-- Feed/Answers has the conversation between RecoveryClient and RecoveryServer that gives them. System
-- takes them from the history that the publishing loop leaves, and System/Interleaving from the history
-- as it is when the request is made: store and lookup_range hold one mutex, so a lookup stands between
-- two rounds. There the channel may also be cut at any datagram, so that no request is answered, as it
-- is when the exchange has ended and its recovery server with it. In Feed/Main the calls that the
-- recovery client makes are a list, whatever the loop asks for.
--
-- Not modelled. The lines that feed_handler prints beside format_bbo and the summaries of cycles, and
-- the texts of print_usage and of the exceptions; the pauses of the publisher; the arguments of the
-- system calls that set sockets up; and the thread of the recovery server with its lock: the history
-- that each request of a client is answered from is an input of handle_client.
pub mod Prelude
pub mod Map
pub mod Text
pub mod CommandLine
pub mod Wire
pub mod Book
pub mod Udp
pub mod Sockets
pub mod Feed
pub mod History
pub mod Channel
pub mod Recovery
pub mod Simulator
pub mod System
