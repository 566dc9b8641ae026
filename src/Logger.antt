-- ===== src/Logger.antt =====
-- server/include/Logger.h: the level of the log and what reaches std::cout. A message is the text that
-- its arguments make; `lines` is newest first.
use tcpchatserver.Base.{ℕ, ◌≡◌, refl, Bool, List, [], ◌∷◌, ◌++◌, arith, leb, if◌then◌else◌}
use tcpchatserver.Base.Int.{ℤ}
use tcpchatserver.Base.Text.{codes, to_string}

pub data LogLevel : Type 0 where
  trace debug info warn error fatal : LogLevel

abbrev pub level_number : LogLevel → ℕ
level_number LogLevel.trace = 0
level_number LogLevel.debug = 1
level_number LogLevel.info = 2
level_number LogLevel.warn = 3
level_number LogLevel.error = 4
level_number LogLevel.fatal = 5

pub record Logger : Type 0 where
  pub current_level : LogLevel
  pub lines : List (List ℕ)

unfoldable pub new_logger : Logger
new_logger = record { current_level = LogLevel.info; lines = [] }

unfoldable pub set_log_level : LogLevel → Logger → Logger
set_log_level level l = record l { current_level = level }

unfoldable pub get_log_level : Logger → LogLevel
get_log_level l = l.current_level

unfoldable pub get_level_string : LogLevel → List ℕ
get_level_string LogLevel.trace = codes "TRACE"
get_level_string LogLevel.debug = codes "DEBUG"
get_level_string LogLevel.info = codes "INFO "
get_level_string LogLevel.warn = codes "WARN "
get_level_string LogLevel.error = codes "ERROR"
get_level_string LogLevel.fatal = codes "FATAL"

-- What LOG_TRACE to LOG_FATAL pass to `log`.
pub record Entry : Type 0 where
  pub level : LogLevel
  pub file : List ℕ
  pub line_number : ℤ
  pub text : List ℕ

unfoldable pub log_line : Entry → List ℕ
log_line e =
    codes "["
    ++ (get_level_string e.level
        ++ (codes "] ["
            ++ (e.file
                ++ (codes ":"
                    ++ (to_string e.line_number ++ (codes "] " ++ (e.text ++ 10 ∷ [])))))))

abbrev pub is_logged : LogLevel → Entry → Bool
is_logged current e = leb (level_number current) (level_number e.level)

unfoldable pub log : Entry → Logger → Logger
log e l = if is_logged l.current_level e then record l { lines = log_line e ∷ l.lines } else l

abbrev pub log_all : List Entry → Logger → Logger
log_all [] l = l
log_all (e ∷ es) l = log_all es (log e l)

-- The lines of the entries at a level or above, newest first, on top of others.
abbrev pub lines_from : LogLevel → List Entry → List (List ℕ) → List (List ℕ)
lines_from current [] ls = ls
lines_from current (e ∷ es) ls =
    if is_logged current e
    then lines_from current es (log_line e ∷ ls)
    else lines_from current es ls

-- While the level stays as it is, the log gets a line for each entry at the level or above, in order.
pub log_all-lines :
    (es : List Entry) (l : Logger)
    → log_all es l ≡ record l { lines = lines_from l.current_level es l.lines }
unfolding log
log_all-lines [] l = refl
log_all-lines (e ∷ es) l = ground (arith, log_all-lines es (log e l))
