-- ===== src/Warehouse/Connect.antt =====
-- airflow/plugins/nordbank_ops/warehouse.py: opening the warehouse file while another process may
-- hold it. The engine answers attempt by attempt; times are whole milliseconds. What the caller
-- does with a connection, and its closing, are not modelled.
pub mod Budget
mod Tests
use Prim.Native.Char.{Char, code}
use Prim.Native.String.{◌++◌}
use nordbank_data_platform.Common.{
  ℕ, suc, zero, String, ◌-◌, ◌*◌, ◌^◌, ◌==◌, min, Bool, true, false, ◌||◌, ◌&&◌, leb, ltb, Option,
  none, some, List, [], ◌∷◌, any, if◌then◌else◌, lower, str_of,
}

-- `text.startswith(prefix)`, with the rest of the text.
unfoldable pub after_prefix : String → String → Option String
after_prefix String.[] text = some text
after_prefix (String.◌∷◌ c prefix) String.[] = none
after_prefix (String.◌∷◌ c prefix) (String.◌∷◌ d text) =
    if code c == code d then after_prefix prefix text else none

abbrev pub is_found : Option String → Bool
is_found none = false
is_found (some rest) = true

-- `marker in message`
unfoldable pub occurs_in : String → String → Bool
unfolding after_prefix
occurs_in marker String.[] = is_found (after_prefix marker "")
occurs_in marker (String.◌∷◌ c message) =
    is_found (after_prefix marker (String.◌∷◌ c message)) || occurs_in marker message

unfoldable pub any_occurs : List String → String → Bool
unfolding occurs_in
any_occurs [] message = false
any_occurs (marker ∷ markers) message = occurs_in marker message || any_occurs markers message

abbrev pub lock_markers : List String
lock_markers = "conflicting lock" ∷ "could not set lock" ∷ "being used by another process" ∷ []

unfoldable pub is_lock_conflict : String → Bool
unfolding any_occurs lower
is_lock_conflict message = any_occurs lock_markers (lower message)

abbrev pub is_digit : Char → Bool
is_digit c = leb 48 (code c) && leb (code c) 57

-- `[\s:]`, the spaces those of Unicode
abbrev pub is_separator : Char → Bool
is_separator c =
    any (λ n. code c == n) (32 ∷ 58 ∷ 133 ∷ 160 ∷ 5760 ∷ 8232 ∷ 8233 ∷ 8239 ∷ 8287 ∷ 12288 ∷ [])
    || (leb 9 (code c) && leb (code c) 13)
    || (leb 28 (code c) && leb (code c) 31)
    || (leb 8192 (code c) && leb (code c) 8202)

unfoldable pub leading_digits : String → String
leading_digits String.[] = ""
leading_digits (String.◌∷◌ c text) =
    let rest = leading_digits text in if is_digit c then String.◌∷◌ c rest else ""

unfoldable pub after_separators : String → String
after_separators String.[] = ""
after_separators (String.◌∷◌ c text) =
    let rest = after_separators text in if is_separator c then rest else String.◌∷◌ c text

-- `(\d+)`
abbrev pub digits_group : String → Option String
digits_group String.[] = none
digits_group (String.◌∷◌ c digits) = some (String.◌∷◌ c digits)

unfoldable pub pid_after : Option String → Option String
unfolding leading_digits after_separators
pid_after none = none
pid_after (some text) = digits_group (leading_digits (after_separators text))

abbrev pub first_match : Option String → Option String → Option String
first_match none later = later
first_match (some pid) later = some pid

-- `_PID.search`, on a text in lower case.
unfoldable pub search_pid : String → Option String
unfolding pid_after after_prefix
search_pid String.[] = none
search_pid (String.◌∷◌ c text) =
    first_match (pid_after (after_prefix "pid" (String.◌∷◌ c text))) (search_pid text)

unfoldable pub lock_holder : String → Option String
unfolding search_pid lower
lock_holder message = search_pid (lower message)

-- How long a caller waits for the file: `attempts`, `base_delay` and `max_delay`.
pub record Patience : Type 0 where
  pub attempts : ℕ
  pub base_delay : ℕ
  pub max_delay : Option ℕ

abbrev pub default_patience : Patience
default_patience = record { attempts = 5; base_delay = 500; max_delay = none }

abbrev pub long_wait : Patience
long_wait = record { attempts = 300; base_delay = 500; max_delay = some 2000 }

abbrev pub capped : Option ℕ → ℕ → ℕ
capped none delay = delay
capped (some most) delay = min delay most

unfoldable pub delay_after : Patience → ℕ → ℕ
delay_after p attempt = capped p.max_delay (p.base_delay * 2 ^ (attempt - 1))

-- What one call of the opener comes to: a connection, or an exception with its text.
pub data Opened (C : Type 0) : Type 0 where
  connected : C → Opened C
  refused : String → Opened C

-- A connection is handed over, an exception of the opener goes on, or `WarehouseBusyError` is
-- raised with its message.
pub data Access (C : Type 0) : Type 0 where
  access_to : C → Access C
  raised : String → Access C
  busy : String → Access C

abbrev pub holder_of : Option String → Option String
unfolding lock_holder
holder_of none = none
holder_of (some message) = lock_holder message

abbrev pub held_by : Option String → String
held_by none = ""
held_by (some pid) = " (held by pid " ++ (pid ++ ")")

unfoldable pub busy_message : String → ℕ → Option String → String
unfolding lock_holder str_of
busy_message target attempts last =
    "warehouse at "
    ++ (target
        ++ (" is locked by another process"
            ++ (held_by (holder_of last)
                ++ ("; gave up after " ++ (str_of attempts ++ " attempts")))))

module _ {C : Type 0} (p : Patience) (target : String) (open_db : ℕ → Opened C) where
  -- The wait after a failed attempt; none after the last.
  unfoldable pub pause : ℕ → List ℕ → List ℕ
  unfolding delay_after
  pause attempt later = if ltb attempt p.attempts then delay_after p attempt ∷ later else later

  unfoldable pub after_open : ℕ → Opened C → Access C × List ℕ → Access C × List ℕ
  unfolding pause is_lock_conflict
  after_open attempt (connected connection) again = (access_to connection, [])
  after_open attempt (refused message) again =
      if is_lock_conflict message then (again.0, pause attempt again.1) else (raised message, [])

  abbrev pub last_error : Opened C → Option String
  last_error (connected connection) = none
  last_error (refused message) = some message

  unfoldable pub connect_from : ℕ → ℕ → Option String → Access C × List ℕ
  unfolding after_open busy_message
  connect_from zero attempt last = (busy (busy_message target p.attempts last), [])
  connect_from (suc left) attempt last =
      after_open attempt (open_db attempt)
        (connect_from left (suc attempt) (last_error (open_db attempt)))

  -- How the access ends, and the waits that were slept.
  unfoldable pub connect : Access C × List ℕ
  unfolding connect_from
  connect = connect_from p.attempts 1 none
