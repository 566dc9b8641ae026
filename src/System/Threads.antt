-- ===== src/System/Threads.antt =====
-- Which thread serves which session of the running server.
use tcpchatserver.Base.{ℕ, ◌≡◌, List}
use tcpchatserver.Session.{Session}
use tcpchatserver.Manager.{Manager}
use tcpchatserver.Listener.{Listener}

abbrev Serve : List (List ℕ) → Manager → Type 0
Serve ts w = w.thread_sessions ≡ ts
