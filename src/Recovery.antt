-- ===== src/Recovery.antt =====
-- The recovery protocol of src/common/recovery.cpp: what RecoveryServer::handle_client and
-- RecoveryClient::request_packets send and read over the stream between them. An exception ends both:
-- the server closes this client's socket, and the feed handler's main returns.
pub mod Conversation
pub mod Packets
pub mod RoundTrip
pub mod Refusals
pub mod Server
pub mod Serving
mod Examples
use binary_market_data_feed.Prelude.{
  ℕ, zero, suc, ◌+◌, ◌-◌, ◌%◌, ◌^◌, Bool, true, false, Option, none, some, List, [], ◌∷◌, ◌++◌,
  ◌||◌, ltb, ◌==◌, if◌then◌else◌, length, take, drop, Result, ok, err, ◌>>=◌,
}
use binary_market_data_feed.Wire.Bytes.{le_bytes, le_value, htonl, ntohl, htons, ntohs}
use binary_market_data_feed.History.{PacketHistory, Loop, returned, running, lookup_range}
use binary_market_data_feed.Channel.{SocketError, Socket, send_all, recv_exact_or_eof}

pub data RecoveryError : Type 0 where
  socket_error : SocketError → RecoveryError
  lookup_running packet_out_of_bounds : RecoveryError
  server_closed too_many_packets closed_during_replay invalid_packet_size : RecoveryError

-- The images of RecoveryRequestWire, RecoveryResponseWire and RecoveryPacketFrameWire, by the numbers
-- that the program puts into them.
unfoldable pub request_bytes : ℕ → ℕ → List ℕ
request_bytes start_seq end_seq = le_bytes 4 (htonl start_seq) ++ le_bytes 4 (htonl end_seq)

unfoldable pub response_bytes : ℕ → List ℕ
response_bytes packet_count = le_bytes 4 (htonl packet_count)

unfoldable pub frame_bytes : ℕ → List ℕ
frame_bytes packet_size = le_bytes 2 (htons packet_size)

unfoldable pub on_socket {ℓ} : {A : Type ℓ} → Result SocketError A → Result RecoveryError A
on_socket (ok a) = ok a
on_socket (err e) = err (socket_error e)

abbrev pub max_recovery_packet_size : ℕ
max_recovery_packet_size = 4096

-- The loop over the packets in `handle_client`.
unfoldable pub send_packets : List (List ℕ) → Socket → Result RecoveryError Socket
unfolding on_socket frame_bytes
send_packets [] s = ok s
send_packets (packet ∷ packets) s =
    if (length packet == 0) || ltb 65535 (length packet)
    then err packet_out_of_bounds
    else on_socket (send_all (frame_bytes (length packet % 2 ^ 16)) s) >>= λ s'.
        on_socket (send_all packet s') >>= send_packets packets

-- What the server does with a lookup's packets.
unfoldable pub reply : Loop (List (List ℕ)) → Socket → Result RecoveryError Socket
unfolding send_packets response_bytes
reply running s = err lookup_running
reply (returned packets) s =
    on_socket (send_all (response_bytes (length packets % 2 ^ 32)) s) >>= send_packets packets

-- One round of the loop of `handle_client`: `none` where the client has closed the stream.
unfoldable pub serve_request : PacketHistory → Socket → Result RecoveryError (Option Socket)
unfolding reply
serve_request h s = on_socket (recv_exact_or_eof 8 s) >>= λ (request, s'). elim request [
  | none ↦ ok none
  | some bytes ↦
      let start_seq = ntohl (le_value (take 4 bytes)) in
      let end_seq = ntohl (le_value (drop 4 bytes)) in
      reply (lookup_range h start_seq end_seq) s' >>= λ s''. ok (some s'')
]

-- How a client's loop ended, with the socket where it goes on or was stopped.
pub data Served : Type 0 where
  client_left : Served
  stopped going_on : Socket → Served

-- Each turn is what a read of `stop_` gives, and the history as it is at the lookup of that round. With
-- none left the loop has not ended.
unfoldable pub handle_client : List (Bool × PacketHistory) → Socket → Result RecoveryError Served
handle_client [] s = ok (going_on s)
handle_client ((true, h) ∷ turns) s = ok (stopped s)
handle_client ((false, h) ∷ turns) s = serve_request h s >>= λ next. elim next [
  | none ↦ ok client_left
  | some s' ↦ handle_client turns s'
]

-- `recv_exact_or_eof` where the end of the stream is an exception.
unfoldable pub recv_or_throw : RecoveryError → ℕ → Socket → Result RecoveryError (List ℕ × Socket)
unfolding on_socket
recv_or_throw e size s = on_socket (recv_exact_or_eof size s) >>= λ (bytes, s'). elim bytes [
  | none ↦ err e
  | some bytes ↦ ok (bytes, s')
]

-- The loop of `request_packets`, with `left` packets to come and `packets` read.
unfoldable pub receive_packets :
    ℕ → List (List ℕ) → Socket → Result RecoveryError (List (List ℕ) × Socket)
unfolding recv_or_throw
receive_packets zero packets s = ok (packets, s)
receive_packets (suc left) packets s = recv_or_throw closed_during_replay 2 s >>= λ (frame, s').
    let packet_size = ntohs (le_value frame) in
    if (packet_size == 0) || ltb max_recovery_packet_size packet_size
    then err invalid_packet_size
    else recv_or_throw closed_during_replay packet_size s' >>= λ (packet, s'').
        receive_packets left (packets ++ packet ∷ []) s''

-- RecoveryClient, with no socket where `socket_fd_` is -1.
pub record RecoveryClient : Type 0 where
  pub connection : Option Socket

-- `connect` is what the system calls of `ensure_connected` give.
unfoldable pub ensure_connected :
    Result SocketError Socket → RecoveryClient → Result RecoveryError Socket
unfolding on_socket
ensure_connected connect client = elim client.connection [
  | some s ↦ ok s
  | none ↦ on_socket connect
]

unfoldable pub request_packets :
    Result SocketError Socket
    → (start_seq end_seq : ℕ) → RecoveryClient
    → Result RecoveryError (List (List ℕ) × RecoveryClient)
unfolding receive_packets ensure_connected request_bytes
request_packets connect start_seq end_seq client =
    if ltb end_seq start_seq
    then ok ([], client)
    else ensure_connected connect client >>= λ s.
        on_socket (send_all (request_bytes start_seq end_seq) s) >>= λ s'.
        recv_or_throw server_closed 4 s' >>= λ (response, s'').
        let packet_count = ntohl (le_value response) in
        if ltb (end_seq - start_seq + 1) packet_count
        then err too_many_packets
        else receive_packets packet_count [] s'' >>= λ (packets, s''').
            ok (packets, record { connection = some s''' })
