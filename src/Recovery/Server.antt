-- ===== src/Recovery/Server.antt =====
-- RecoveryServer::run of src/common/recovery.cpp, by what ::poll and ::accept return.
use binary_market_data_feed.Prelude.{Bool, List, [], ◌∷◌, Result}
use binary_market_data_feed.History.{PacketHistory}
use binary_market_data_feed.Channel.{Socket}
use binary_market_data_feed.Recovery.{RecoveryError, Served, handle_client}

-- A round of the loop: `stop_` is set; EINTR, another error, or no connection from ::poll; EINTR or
-- another error from ::accept; or a client, with what each read of `stop_` gives while it is served, and
-- the history as it is at each of its requests.
pub data Round : Type 0 where
  stop poll_interrupted poll_failed idle accept_interrupted accept_failed : Round
  accepted : List (Bool × PacketHistory) → Socket → Round

pub data Ended : Type 0 where
  server_stopped poll_error waiting : Ended

-- How each client's conversation ended, in order, and how the loop did. An exception of handle_client
-- is caught and printed, and the client's socket closed.
unfoldable pub run : List Round → List (Result RecoveryError Served) × Ended
unfolding handle_client
run [] = ([], waiting)
run (stop ∷ rounds) = ([], server_stopped)
run (poll_interrupted ∷ rounds) = run rounds
run (poll_failed ∷ rounds) = ([], poll_error)
run (idle ∷ rounds) = run rounds
run (accept_interrupted ∷ rounds) = run rounds
run (accept_failed ∷ rounds) = run rounds
run (accepted turns client ∷ rounds) =
    let (served, ended) = run rounds in (handle_client turns client ∷ served, ended)
