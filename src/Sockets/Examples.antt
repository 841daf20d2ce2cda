-- ===== src/Sockets/Examples.antt =====
-- Sockets on a system where every call works, with one group that is an address.
use binary_market_data_feed.Prelude.{
  ◌+◌, ◌≡◌, refl, true, none, some, [], ◌∷◌, ◌==◌, not, if◌then◌else◌, ok, err,
}
use binary_market_data_feed.Text.{codes, same}
use binary_market_data_feed.Sockets.{
  bind_failed, invalid_address, Kernel, Process, remove, close, with_socket, or_close,
  set_non_blocking, open_sender, join_group, open_receiver, create_listen_socket, connect_socket,
  connect_to,
}
use binary_market_data_feed.Sockets.Opening.{IsTidy, IsLeaky, opening_lem}

abbrev kernel : Kernel
kernel = record {
  descriptor = λ n. some (n + 3);
  succeeds = λ n. true;
  inet_pton = λ text. if same text (codes "239.255.42.99") then some 668663791 else none;
}

abbrev fresh : Process
fresh = record { calls = 0; open_descriptors = 2 ∷ 1 ∷ 0 ∷ [] }

opening_lem_example :
    IsTidy (2 ∷ 1 ∷ 0 ∷ []) (open_sender kernel (codes "239.255.42.99") fresh)
    × IsTidy (2 ∷ 1 ∷ 0 ∷ []) (create_listen_socket kernel fresh)
    × IsTidy (2 ∷ 1 ∷ 0 ∷ []) (connect_to kernel (codes "nowhere") fresh)
    × IsLeaky (2 ∷ 1 ∷ 0 ∷ []) (open_receiver kernel (codes "239.255.42.99") fresh)
opening_lem_example = opening_lem kernel (codes "239.255.42.99") (codes "nowhere") fresh

opens_sender : (open_sender kernel (codes "239.255.42.99") fresh).0 ≡ ok 3
unfolding open_sender with_socket or_close same
opens_sender = refl

opens_receiver : (open_receiver kernel (codes "239.255.42.99") fresh).0 ≡ ok 3
unfolding open_receiver with_socket or_close join_group set_non_blocking same
opens_receiver = refl

opens_listener : (create_listen_socket kernel fresh).0 ≡ ok 3
unfolding create_listen_socket with_socket or_close
opens_listener = refl

opens_client : (connect_to kernel (codes "239.255.42.99") fresh).0 ≡ ok 3
unfolding connect_to with_socket connect_socket or_close same
opens_client = refl

-- The group is no address.
receiver_leaves_descriptor :
    open_receiver kernel (codes "localhost") fresh
    ≡ (err invalid_address, record { calls = 3; open_descriptors = 3 ∷ 2 ∷ 1 ∷ 0 ∷ [] })
unfolding open_receiver with_socket or_close join_group set_non_blocking same
receiver_leaves_descriptor = refl

-- The third call fails.
listener_closes :
    create_listen_socket (record kernel { succeeds = λ n. not (n == 2) }) fresh
    ≡ (err bind_failed, record fresh { calls = 3 })
unfolding create_listen_socket with_socket or_close close remove
listener_closes = refl
