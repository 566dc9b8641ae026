-- ===== src/Uring/Stats.antt =====
-- IOUring::logMessageStats, which logs the totals each time that another thousand messages are sent.
use tcpchatserver.Base.{
  ℕ, ◌+◌, ◌/◌, ◌≤◌, ◌≡◌, refl, List, [], ◌∷◌, ◌++◌, arith, ltb, length, if◌then◌else◌, Bool-cases,
  inl, inr, ◌⊎◌,
}
use tcpchatserver.Base.Int.{pos}
use tcpchatserver.Base.Text.{codes}
use tcpchatserver.Base.Decimal.{to_string_u64}
use tcpchatserver.Logger.{Entry, Logger, LogLevel, log, level_number}
use tcpchatserver.Uring.{IoUring}

abbrev pub log_interval : ℕ
log_interval = 1000

unfoldable pub stats_entry : (file : List ℕ) → IoUring → Entry
stats_entry file u = record {
  level = LogLevel.info;
  file = file;
  line_number = pos 363;
  text =
      codes "Stats - Messages: "
      ++ (to_string_u64 u.total_messages
          ++ (codes ", Broadcasts: " ++ to_string_u64 u.total_broadcasts));
}

-- `last_log_messages` is the static variable, which all rings share.
unfoldable pub log_message_stats : (file : List ℕ) → IoUring → ℕ × Logger → ℕ × Logger
log_message_stats file u (last_log_messages, l) =
    if ltb (last_log_messages / log_interval) (u.total_messages / log_interval)
    then (u.total_messages, log (stats_entry file u) l)
    else (last_log_messages, l)

-- The rings that it is called on, one after the other.
abbrev log_all_stats : (file : List ℕ) → List IoUring → ℕ × Logger → ℕ × Logger
log_all_stats file [] st = st
log_all_stats file (u ∷ us) st = log_all_stats file us (log_message_stats file u st)

abbrev pub Rises : ℕ → List IoUring → Type 0
Rises total [] = Unit
Rises total (u ∷ us) =
    ((u.total_messages ≡ total) ⊎ (u.total_messages ≡ total + 1)) × Rises u.total_messages us

abbrev last_total : ℕ → List IoUring → ℕ
last_total total [] = total
last_total total (u ∷ us) = last_total u.total_messages us

-- Called on a ring's states as its total of messages rises one by one, from a total that was logged
-- for, at a level that shows it: it has logged a line for each thousand of the total that was passed.
pub log_all_stats-lines :
    (file : List ℕ) (us : List IoUring) (total logged : ℕ) (l : Logger)
    → Rises total us
    → logged / log_interval ≡ total / log_interval
    → level_number l.current_level ≤ 2
    → length (log_all_stats file us (logged, l)).1.lines + total / log_interval
      ≡ length l.lines + last_total total us / log_interval
unfolding log_message_stats log stats_entry
log_all_stats-lines file [] total logged l rises same shown = refl
log_all_stats-lines file (u ∷ us) total logged l rises same shown =
    elim (Bool-cases (ltb (logged / log_interval) (u.total_messages / log_interval))) [
      | inl passed ↦
          let l' = log (stats_entry file u) l in
          ground
            (arith, log_all_stats-lines file us u.total_messages u.total_messages l' rises.1 refl)
      | inr still ↦ ground (arith, log_all_stats-lines file us u.total_messages logged l rises.1)
    ]
