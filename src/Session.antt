-- ===== src/Session.antt =====
-- server/src/Session.cpp and server/include/Session.h: a session's clients and its own ring.
-- processEvent, which reaches the session manager through the ring's handlers, is in Handlers.
pub mod Join
use tcpchatserver.Base.{ℕ, suc, List, [], ◌∷◌, ◌++◌, length}
use tcpchatserver.Base.Int.{ℤ}
use tcpchatserver.Base.IntSet
use tcpchatserver.Base.Text.{codes, to_string}
use tcpchatserver.Base.Action.{Action, Done, modify, ◌>>=◌, ◌>>◌}
use tcpchatserver.Context.{MessageType}
use tcpchatserver.Uring.{
  Env, IoUring, submit_ring, prepare_accept, prepare_read, prepare_close, send_message,
}

-- `clients` is the std::set, in ascending order.
pub record Session : Type 0 where
  pub session_id : ℤ
  pub io_ring : IoUring
  pub clients : List ℤ

unfoldable pub new_session : ℤ → IoUring → Session
new_session id ring = record { session_id = id; io_ring = ring; clients = [] }

-- A call of a method of the session's ring.
abbrev pub on_ring : {A : Type 0} → Action IoUring A → Action Session A
on_ring m s = let (r, u) = m s.io_ring in (r, record s { io_ring = u })

unfoldable pub remove_client : ℤ → Session → Session
remove_client client_fd s = record s { clients = IntSet.erase client_fd s.clients }

unfoldable pub get_client_count : Session → ℕ
get_client_count s = length s.clients

abbrev insert_client : ℤ → Session → Session
insert_client client_fd s = record s { clients = IntSet.insert client_fd s.clients }

unfoldable pub session_text : ℤ → List ℕ
session_text id = codes "joined session:" ++ to_string id

module _ (env : Env) where
  unfoldable pub add_client : ℤ → Action Session Done
  add_client client_fd s =
      (do
        modify (insert_client client_fd)
        on_ring (prepare_read env client_fd)
        on_ring (
            send_message env client_fd MessageType.server_notification (session_text s.session_id)
              0)
        on_ring (modify submit_ring))
        s

  unfoldable pub handle_close : ℤ → Action Session Done
  handle_close client_fd = do
    modify (remove_client client_fd)
    on_ring (prepare_close env client_fd)

  unfoldable pub set_listening_socket : ℤ → Action Session Done
  set_listening_socket socket_fd = on_ring (prepare_accept env socket_fd)
