-- ===== src/Utils.antt =====
-- server/include/Utils.h: the name of a thread for the log.
use tcpchatserver.Base.{
  ℕ, ◌-◌, ◌≤◌, ◌≡◌, List, ◌++◌, arith, length, length-append, replicate, length-replicate,
}
use tcpchatserver.Base.Text.{codes}

-- A text put into a stream after std::setw: spaces before it fill the width.
abbrev padded : (width : ℕ) → List ℕ → List ℕ
padded width text = replicate (width - length text) b' ' ++ text

-- `id` is the text that the stream gets for std::this_thread::get_id().
unfoldable pub get_thread_id : (id : List ℕ) → List ℕ
get_thread_id id = codes "[Thread-" ++ (padded 5 id ++ codes "] ")

-- Ids of at most five characters are aligned.
pub length-get_thread_id : (id : List ℕ) → length id ≤ 5 → length (get_thread_id id) ≡ 15
unfolding get_thread_id
length-get_thread_id id h = ground (
  arith,
  length-append (padded 5 id) (codes "] "),
  length-append (replicate (5 - length id) b' ') id,
  length-replicate {A = ℕ} (5 - length id) b' ',
)
