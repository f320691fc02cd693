-- ===== src/Tests/Tables.antt =====
-- Tables, libraries and userdata.
use gluamysql.Base.{
  ◌∷◌, ℕ, ◌≡◌, refl, false, true, Option, none, some, [], ◌==◌, map, arith, if◌then◌else◌,
}
use gluamysql.Table.{rawget}
use gluamysql.Tables.{tremove, create_meta_table, database_library, as_function, index_name, itself}
use gluamysql.Tables.Shift.{last_entry, tremove_lem, create_meta_table-rawget}
use gluamysql.Hooks.Loader.{Game, called, shutdown_loader, initialize, initialize-shutdown_loader}
use gluamysql.Classes.{
  UserTypes, get_database, get_statement, push_statement, push_database, clear_user_data, is_valid,
}
use gluamysql.Classes.Confusion.{get_database-push_statement, is_valid_never_false}

abbrev three : ℕ → Option ℕ
three i = if i == 1 then some 10 else if i == 2 then some 20 else if i == 3 then some 30 else none

tremove_lem_example : tremove 3 2 three 2 ≡ some 30
tremove_lem_example = tremove_lem 3 2 three 2

create_meta_table-rawget_example :
    rawget index_name (create_meta_table database_library [])
    ≡ last_entry index_name (map as_function database_library) (some itself)
create_meta_table-rawget_example = create_meta_table-rawget index_name database_library []

-- A userdata is a pointer with its type number, and gives the pointer for that type only.
abbrev plain_types : UserTypes (ℕ × ℕ)
plain_types = record {
  push_user_type = λ p t. (p, t);
  get_user_type = λ x t. if x.1 == t then x.0 else 0;
  set_user_type = λ x p. (p, x.1);
}

get_database-push_statement_example :
    (get_database plain_types false (push_statement plain_types 64) ≡ some 64)
    × (get_statement plain_types false (push_database plain_types 64) ≡ some 64)
get_database-push_statement_example =
    get_database-push_statement plain_types (λ p t. ground arith) 64 refl

is_valid_never_false_example :
    (is_valid plain_types (64, 0) ≡ some true)
    × (is_valid plain_types (clear_user_data plain_types (64, 0)) ≡ none)
is_valid_never_false_example = is_valid_never_false plain_types (λ x t. ground arith) (64, 0)

abbrev new_game : Game ℕ
new_game = record { has_gamemode = false; shut_down = 5 ∷ []; on_initialize = none }

initialize-shutdown_loader_example :
    let fs = (initialize (shutdown_loader 9 new_game)).shut_down in
    (fs ≡ 5 ∷ 9 ∷ []) × (called (λ f. f == 5) fs ≡ 5 ∷ [])
unfolding called
initialize-shutdown_loader_example = initialize-shutdown_loader 9 new_game (λ f. f == 5) refl
