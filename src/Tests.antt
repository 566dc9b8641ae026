-- ===== src/Tests.antt =====
-- Concrete kernels, rings, sessions and messages, and the theorems applied to them.
pub mod Rings
pub mod Buffers
pub mod Sessions
pub mod Events
pub mod Running
pub mod Requests
pub mod Clients
pub mod Rooms
pub mod Benchmarks
use tcpchatserver.Base.{
  ℕ, ltb, length, none, some, true, false, List, [], ◌∷◌, if◌then◌else◌, ◌==◌, ◌+◌,
}
use tcpchatserver.Base.Int.{ℤ, pos}
use tcpchatserver.Base.Text.{codes}
use tcpchatserver.Base.Action.{Result, ok}
use tcpchatserver.Context.{OperationType, set_context}
use tcpchatserver.Buffer.{BufferInfo, UringBuffer, fresh_info}
use tcpchatserver.Uring.{Env, IoUring}
use tcpchatserver.Session.{Session}
use tcpchatserver.Manager.{Manager}
use tcpchatserver.Handlers.{Cqe}
use tcpchatserver.Listener.{Listener}

-- A kernel that always has an entry free, one that has none, and one that has two.
abbrev pub roomy : Env
roomy = record { next_sqe = λ _. some 0; prep = λ _ v. v; wait = λ _. pos 0 }

abbrev pub full : Env
full = record { next_sqe = λ _. none; prep = λ _ v. v; wait = λ _. pos 0 }

abbrev pub two_entries : Env
two_entries = record {
  next_sqe = λ cs. if ltb (length cs) 2 then some 0 else none;
  prep = λ _ v. v;
  wait = λ _. pos 0;
}

abbrev pub roomy_everywhere : ℕ → Env
roomy_everywhere ref = roomy

-- Memory in which one message lies at the address 0: the type, the length and some text.
abbrev pub memory_with : ℕ → ℕ → ℕ → ℕ
memory_with type len a = if a == 0 then type else if a == 1 then len else if a == 3 then 104 else 0

abbrev pub taken_info : BufferInfo
taken_info = record { in_use = true; client_fd = 7; bytes_used = 0; total_uses = 1; ref_count = 0 }

abbrev pub buffers_in : BufferInfo → (ℕ → ℕ) → UringBuffer
buffers_in info memory = record {
  buffers = λ _. info;
  client_buffers = [];
  base_addr = 0;
  memory = memory;
  ring_calls = [];
}

abbrev pub ring_with : UringBuffer → IoUring
ring_with b = record { buffer_manager = b; calls = []; total_broadcasts = 0; total_messages = 0 }

abbrev pub idle_ring : IoUring
idle_ring = ring_with (buffers_in fresh_info (λ _. 0))

-- A ring on which every buffer has been taken.
abbrev pub taken_ring : IoUring
taken_ring = ring_with (buffers_in taken_info (λ _. 0))

abbrev pub message_ring : ℕ → ℕ → IoUring
message_ring type len = ring_with (buffers_in fresh_info (memory_with type len))

-- Two sessions, 0 with the clients 7 and 8, and 1 without any.
abbrev pub two_sessions : IoUring → Manager
two_sessions ring = record {
  heap = λ ref.
      if ref == 0
      then record { session_id = pos 0; io_ring = ring; clients = pos 7 ∷ pos 8 ∷ [] }
      else record { session_id = pos 1; io_ring = idle_ring; clients = [] };
  next_ref = 2;
  sessions = (pos 0, 0) ∷ (pos 1, 1) ∷ [];
  client_sessions = (pos 7, pos 0) ∷ (pos 8, pos 0) ∷ [];
  worker_threads = 0 ∷ 1 ∷ [];
  thread_sessions = (0 ∷ []) ∷ (1 ∷ []) ∷ [];
  should_stop = false;
  next_session_id = 2;
  num_worker_threads = 2;
}

-- A completion for the client 7, with buffer 0.
abbrev pub cqe_of : OperationType → ℤ → Cqe
cqe_of type res = record { res = res; flags = 1; user_data = set_context 0 type (pos 7) 0 }

abbrev pub quiet_listener : Listener
quiet_listener = record {
  running = false;
  has_ring = true;
  io_ring = idle_ring;
  listening_socket = pos 3;
  closed = [];
}
