-- ===== src/Tests/Sockets.antt =====
-- Sockets and rows.
use gluamysql.Base.{ℕ, ◌≡◌, refl, true, false, Option, none, some, List, [], ◌∷◌, arith}
use gluamysql.Table.{Bytes, rawget}
use gluamysql.Row.{Field, FieldType, Numbers, Row, push_row}
use gluamysql.Row.Columns.{blanked, push_row-rawget, push_row-blanked, last_value}
use gluamysql.Status.{Events, ready, events_of, check_database_status}
use gluamysql.Status.Ready.{goes_on, check_database_status-goes_on, check_database_status_stalls}
use gluamysql.Tests.Demo.{demo, quiet}

abbrev readable : Events
readable = record { pollin = true; pollout = false; pollpri = false }

check_database_status-goes_on_example :
    check_database_status {C = ℕ} (λ e. (ready readable, 8)) 7 1
    ≡ (goes_on (events_of 1) (ready readable), 8)
check_database_status-goes_on_example =
    check_database_status-goes_on (λ e. (ready readable, 8)) 7 1 (omega arith)

check_database_status_stalls_example :
    (check_database_status {C = ℕ} (λ e. (ready readable, 8)) 7 3).0 ≡ false
unfolding events_of
check_database_status_stalls_example =
    check_database_status_stalls (λ e. (ready readable, 8)) 7 3 readable (omega arith) refl refl
      refl refl refl

abbrev two_columns : List Field
two_columns =
    record { name = b'a' ∷ []; type = FieldType.varchar }
    ∷ record { name = b'b' ∷ []; type = FieldType.long }
    ∷ []

abbrev two_cells : List (Option Bytes)
two_cells = some (b'x' ∷ []) ∷ none ∷ []

abbrev counting : Numbers ℕ
counting = (demo 0 quiet).numbers

push_row-rawget_example :
    (r : Row ℕ) × (push_row counting two_columns two_cells (some (false ∷ true ∷ [])) ≡ some r)
    × ((k : Bytes)
        → rawget k r ≡ last_value counting k two_columns two_cells (false ∷ true ∷ []) none)
push_row-rawget_example =
    push_row-rawget counting two_columns two_cells (some (false ∷ true ∷ [])) (omega arith)
      (omega arith)

push_row-blanked_example :
    push_row counting two_columns (blanked two_cells) none
    ≡ push_row counting two_columns two_cells none
push_row-blanked_example = push_row-blanked counting two_columns two_cells
