-- ===== src/Status.antt =====
-- src/luadatabase.cpp and src/luadatabase.h: what the socket of a connection is ready for, and
-- whether a suspended call of the client library may go on. `poll` is the system's: it is handed
-- the events to watch and answers with the state `C` in which it leaves the connection.
pub mod Ready
use gluamysql.Base.{ℕ, Bool, true, not, ◌&&◌, ◌||◌, ◌==◌, bit_and, bit_or, if◌then◌else◌}

-- The flags of mysql.h for what a suspended call waits for.
abbrev pub wait_read : ℕ
wait_read = 1

abbrev pub wait_write : ℕ
wait_write = 2

abbrev pub wait_except : ℕ
wait_except = 4

abbrev pub wait_timeout : ℕ
wait_timeout = 8

-- The bits POLLIN, POLLOUT and POLLPRI of a `struct pollfd`.
pub record Events : Type 0 where
  pub pollin : Bool
  pub pollout : Bool
  pub pollpri : Bool

-- `poll` over one descriptor: zero, negative, or positive with the bits in `revents`.
pub data PollResult : Type 0 where
  timed_out : PollResult
  failed : PollResult
  ready : Events → PollResult

abbrev pub has_flag : ℕ → ℕ → Bool
has_flag status flag = not (bit_and status flag == 0)

unfoldable pub events_of : ℕ → Events
events_of status = record {
  pollin = has_flag status wait_read;
  pollout = has_flag status wait_write;
  pollpri = has_flag status wait_except;
}

unfoldable pub status_of : Events → ℕ
status_of revents =
    let s1 : ℕ = if revents.pollin then bit_or 0 wait_read else 0 in
    let s2 : ℕ = if revents.pollout then bit_or s1 wait_write else s1 in
    if revents.pollpri then bit_or s2 wait_except else s2

unfoldable pub answered : PollResult → ℕ
unfolding status_of
answered PollResult.timed_out = wait_timeout
answered PollResult.failed = wait_timeout
answered (PollResult.ready revents) = status_of revents

module _ {C : Type 0} (poll : Events → PollResult × C) where
  -- `GetCurrentDatabaseStatus`
  unfoldable pub get_current_database_status : ℕ → ℕ × C
  unfolding events_of answered
  get_current_database_status status = let (res, c) = poll (events_of status) in (answered res, c)

-- The comparison at the end of `CheckDatabaseStatus`.
unfoldable pub matches_wait : ℕ → ℕ → Bool
matches_wait waiting_state current_state =
    let wstate0 : ℕ = bit_and waiting_state (bit_or wait_read wait_write) in
    let wstate1 : ℕ = bit_and waiting_state wait_except in
    let cstate0 : ℕ = bit_and current_state (bit_or wait_read wait_write) in
    let cstate1 : ℕ = bit_and current_state wait_except in
    (wstate0 == cstate0 && not (wstate0 == 0)) || (wstate1 == cstate1 && not (wstate1 == 0))

module _ {C : Type 0} (poll : Events → PollResult × C) (c : C) where
  -- `CheckDatabaseStatus`: with nothing to wait for the socket is not asked.
  unfoldable pub check_database_status : ℕ → Bool × C
  unfolding get_current_database_status matches_wait
  check_database_status waiting_state =
      if waiting_state == 0
      then (true, c)
      else (let (current_state, c') = get_current_database_status poll waiting_state in
          (matches_wait waiting_state current_state, c'))
