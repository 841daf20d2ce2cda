-- ===== src/Udp.antt =====
-- UdpMulticastSender::send and UdpMulticastReceiver::try_receive of src/common/udp_multicast.cpp, by
-- what ::sendto and ::recvfrom return.
use binary_market_data_feed.Prelude.{
  ℕ, Option, none, some, List, not, ◌==◌, if◌then◌else◌, length, take, Result, ok, err,
}

pub data UdpError : Type 0 where
  sendto_failed partial_send recvfrom_failed : UdpError

-- The receiver's buffer in the feed handler's main.
abbrev pub receive_buffer_size : ℕ
receive_buffer_size = 4096

-- `none` is a negative result.
unfoldable pub send : Option ℕ → List ℕ → Result UdpError (Unit {0})
send none payload = err sendto_failed
send (some sent) payload = if not (sent == length payload) then err partial_send else ok tt

-- EAGAIN or EWOULDBLOCK; another error; or a datagram.
pub data RecvfromOutcome : Type 0 where
  would_block recvfrom_error : RecvfromOutcome
  received : List ℕ → RecvfromOutcome

-- A datagram longer than the buffer is cut by the system.
unfoldable pub try_receive : ℕ → RecvfromOutcome → Result UdpError (Option (List ℕ))
try_receive buffer_size would_block = ok none
try_receive buffer_size recvfrom_error = err recvfrom_failed
try_receive buffer_size (received datagram) = ok (some (take buffer_size datagram))
