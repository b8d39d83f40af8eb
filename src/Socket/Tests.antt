-- ===== src/Socket/Tests.antt =====
-- A socket that opens and is lost, and the theorem on closed sockets at it.
use geoduels.Base.{◌≡◌, refl, ◌↔◌, ◌≢◌, ◌⊎◌, false, true, some, [], ◌∷◌, arith}
use geoduels.Socket.{
  SocketClient, on_close, was_closed, opened, fresh_client, connect, on_event, close,
}
use geoduels.Socket.Ownership.{Reach, start, next, connects, reports, unexpected_close_iff}

abbrev open_client : SocketClient
open_client = (on_event (connect fresh_client) 0 opened).0

open_client-Reach : Reach open_client
unfolding fresh_client connect on_event close
open_client-Reach =
    next (next (start refl) (connects refl)) (reports 0 opened (omega arith) refl refl)

unexpected_close_iff_example :
    (((on_event open_client 0 was_closed).1 ≡ on_close false ∷ [])
      ↔ ((was_closed ≡ was_closed) × (open_client.socket ≡ some 0)))
    × (open_client.socket ≢ some 0
        → ((on_event open_client 0 was_closed).0.socket ≡ open_client.socket)
          × (((on_event open_client 0 was_closed).1 ≡ [])
              ⊎ ((on_event open_client 0 was_closed).1 ≡ on_close true ∷ [])))
unfolding fresh_client connect on_event close
unexpected_close_iff_example =
    unexpected_close_iff 0 was_closed open_client-Reach (omega arith) (λ e. cc)
