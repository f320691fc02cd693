-- ===== src/Status/Ready.antt =====
-- When a suspended call of the client may go on, by what its socket is ready for.
use gluamysql.Base.{
  ℕ, zero, suc, ◌<◌, ◌≡◌, refl, Bool, true, false, ◌&&◌, ◌||◌, arith, not, ◌==◌, passes_under,
  passes_under_lem, if◌then◌else◌,
}
use gluamysql.Status.{
  Events, PollResult, timed_out, failed, ready, events_of, status_of, answered, matches_wait,
  check_database_status,
}

-- Equality of two bits.
abbrev pub same : Bool → Bool → Bool
same true b = b
same false b = not b

same-eq : (a b : Bool) → same a b ≡ true → a ≡ b
same-eq a b h = ground arith

-- Readiness, said of the events: every one of read and write is ready that was asked for, and
-- none besides; or the exceptional condition was asked for and holds.
abbrev pub may_go_on : Events → Events → Bool
may_go_on asked got =
    ((asked.pollin || asked.pollout)
      && same asked.pollin got.pollin
      && same asked.pollout got.pollout)
    || (asked.pollpri && got.pollpri)

abbrev agrees : Bool → Bool → Bool → ℕ → Bool
agrees i o p w =
    let got : Events = record { pollin = i; pollout = o; pollpri = p } in
    same (matches_wait w (status_of got)) (may_go_on (events_of w) got)

agrees-table : (i o p : Bool) → passes_under (agrees i o p) 16 ≡ true
unfolding passes_under matches_wait status_of events_of
agrees-table true true true = refl
agrees-table true true false = refl
agrees-table true false true = refl
agrees-table true false false = refl
agrees-table false true true = refl
agrees-table false true false = refl
agrees-table false false true = refl
agrees-table false false false = refl

matches_wait-may_go_on :
    (w : ℕ) (got : Events) → w < 16 → matches_wait w (status_of got) ≡ may_go_on (events_of w) got
matches_wait-may_go_on w got h = same-eq _ _ (
    passes_under_lem (agrees got.pollin got.pollout got.pollpri) 16 w h
      (agrees-table got.pollin got.pollout got.pollpri))

timeout-table : passes_under (λ w. not (matches_wait w 8)) 16 ≡ true
unfolding passes_under matches_wait
timeout-table = refl

-- `poll` sets no bit that it was not asked to watch.
abbrev pub IsSubset : Events → Events → Type 0
IsSubset got asked =
    (got.pollin ≡ true → asked.pollin ≡ true)
    × (got.pollout ≡ true → asked.pollout ≡ true)
    × (got.pollpri ≡ true → asked.pollpri ≡ true)

-- What the answer of `poll` means for a suspended call.
abbrev pub goes_on : Events → PollResult → Bool
goes_on asked timed_out = false
goes_on asked failed = false
goes_on asked (ready got) = may_go_on asked got

matches_wait-answered :
    (w : ℕ) (res : PollResult) → w < 16 → matches_wait w (answered res) ≡ goes_on (events_of w) res
unfolding answered
matches_wait-answered w timed_out h = ground (arith, passes_under_lem _ 16 w h timeout-table)
matches_wait-answered w failed h = ground (arith, passes_under_lem _ 16 w h timeout-table)
matches_wait-answered w (ready got) h = matches_wait-may_go_on w got h

-- For every combination of the four wait flags: a call that waits for nothing goes on without a
-- `poll`; any other goes on exactly when `poll`, asked for the events of the flags, reports as
-- ready all of read and write that are waited for and none besides, with at least one of them
-- waited for, or reports a waited-for exceptional condition. After a `poll` that times out or
-- fails it does not go on. The connection is left in the state in which that `poll` leaves it.
pub check_database_status-goes_on :
    {C : Type 0} (poll : Events → PollResult × C) (c : C) (w : ℕ)
    → w < 16
    → check_database_status poll c w ≡ (
        if w == 0
        then (true, c)
        else (goes_on (events_of w) (poll (events_of w)).0, (poll (events_of w)).1))
unfolding check_database_status
check_database_status-goes_on poll c w h =
    ground (arith, matches_wait-answered w (poll (events_of w)).0 h)

wait_zero : (w : ℕ) → (events_of w).pollin ≡ true → (w == 0) ≡ false
unfolding events_of
wait_zero zero h = cc
wait_zero (suc w) h = ground arith

-- A call that waits for both reading and writing is held back although `poll` reports that one of
-- the two is possible, as long as the other is not and no exceptional condition is waited for.
pub check_database_status_stalls :
    {C : Type 0} (poll : Events → PollResult × C) (c : C) (w : ℕ) (got : Events)
    → w < 16
    → (events_of w).pollin ≡ true
    → (events_of w).pollout ≡ true
    → (events_of w).pollpri ≡ false
    → (poll (events_of w)).0 ≡ ready got
    → got.pollin ≡ not got.pollout
    → (check_database_status poll c w).0 ≡ false
check_database_status_stalls poll c w got h i o p e one =
    rw (check_database_status-goes_on poll c w h) (ground (arith, wait_zero w))
