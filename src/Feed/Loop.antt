-- ===== src/Feed/Loop.antt =====
-- The event loop of `main` in src/feed_handler/main.cpp: what epoll.wait returns, batch by batch.
use binary_market_data_feed.Prelude.{
  List, [], ◌∷◌, Bool, not, if◌then◌else◌, none, some, Result, ok, err, ◌>>=◌,
}
use binary_market_data_feed.Feed.{
  Feed, FeedError, Setup, epoll_failed, wait_failed, receive_failed, limit_reached,
  receive_datagram,
}
use binary_market_data_feed.Udp.{RecvfromOutcome, receive_buffer_size, try_receive}

-- An event: whether EPOLLERR or EPOLLHUP is set, whether EPOLLIN is, and what the calls of ::recvfrom
-- give when the socket is read.
pub record EpollEvent : Type 0 where
  pub failed : Bool
  pub readable : Bool
  pub receives : List RecvfromOutcome

-- A call of ::epoll_wait: EINTR, another error, or the events that are ready.
pub data WaitOutcome : Type 0 where
  interrupted failed_wait : WaitOutcome
  woken : List EpollEvent → WaitOutcome

module _ (setup : Setup) where
  -- The loop over `try_receive`. At the end of the list the call has not returned.
  unfoldable pub receive_ready : List RecvfromOutcome → Feed → Result FeedError Feed
  unfolding try_receive
  receive_ready [] s = ok s
  receive_ready (outcome ∷ outcomes) s =
      let rest = receive_ready outcomes in
      if limit_reached setup s then ok s else elim (try_receive receive_buffer_size outcome) [
        | err e ↦ err receive_failed
        | ok none ↦ ok s
        | ok (some bytes) ↦ receive_datagram setup bytes s >>= rest
      ]

  unfoldable pub handle_event : EpollEvent → Feed → Result FeedError Feed
  handle_event event s =
      if event.failed
      then err epoll_failed
      else if not event.readable
      then ok s
      else receive_ready event.receives s

  unfoldable pub handle_events : List EpollEvent → Feed → Result FeedError Feed
  handle_events [] s = ok s
  handle_events (event ∷ events) s =
      let rest = handle_events events in
      if limit_reached setup s then ok s else handle_event event s >>= rest

  -- The outer loop, with the loop of EpollInstance::wait in it: an interrupted call is made again. At the
  -- end of the list the handler is waiting.
  unfoldable pub run : List WaitOutcome → Feed → Result FeedError Feed
  run [] s = ok s
  run (outcome ∷ outcomes) s =
      let rest = run outcomes in
      if limit_reached setup s then ok s else elim outcome [
        | interrupted ↦ rest s
        | failed_wait ↦ err wait_failed
        | woken events ↦ handle_events events s >>= rest
      ]
