-- ===== src/Tests/Parameters.antt =====
-- Parameters made of two arguments; the counts of a query.
use gluamysql.Base.{ℕ, ◌%◌, ◌^◌, arith, ◌≡◌, refl, true, false, none, some, List, [], ◌∷◌}
use gluamysql.Action.{empty_table}
use gluamysql.Binding.{LuaArg, Bind, make_arguments}
use gluamysql.Binding.Reading.{AllRead, given}
use gluamysql.Binding.Parameters.{make_arguments-AllRead}
use gluamysql.Status.{ready}
use gluamysql.Host.{Host, Reply}
use gluamysql.Int.{ℤ, pos}
use gluamysql.Int.Range.{IsSigned, to_unsigned}
use gluamysql.Querying.{with_counts}
use gluamysql.Querying.Counts.{with_counts-IsSigned, with_counts_exact}
use gluamysql.Tests.Demo.{magnitude, next_reply, fetch_next, demo, quiet}

-- Three parameters and two arguments.
abbrev arguments : List LuaArg
arguments = LuaArg.boolean true ∷ LuaArg.string (b'a' ∷ b'b' ∷ []) ∷ []

abbrev bytes_of : ℕ → List ℕ
bytes_of n = n ∷ []

make_arguments-AllRead_example :
    (binds : List Bind) × (bs : List (List ℕ)) × (make_arguments bytes_of 3 arguments
      ≡ some (binds, bs))
    × AllRead bytes_of bs binds (given 3 arguments)
make_arguments-AllRead_example =
    make_arguments-AllRead bytes_of 3 arguments (refl, (refl, (refl, tt)))

with_counts-IsSigned_example :
    (id affected : ℤ) × (with_counts (demo 0 quiet) [] empty_table ≡ record empty_table {
      last_insert_id = some (magnitude id);
      affected_rows = some (magnitude affected);
    })
    × IsSigned 64 id
    × IsSigned 64 affected
    × (to_unsigned 64 id ≡ 5 % 2 ^ 64)
    × (to_unsigned 64 affected ≡ 1 % 2 ^ 64)
with_counts-IsSigned_example =
    with_counts-IsSigned (demo 0 quiet) [] empty_table (omega arith) refl refl

-- A number of Lua that holds every integer, and a client with this number.
abbrev exact : Host (List Reply) ℤ
exact = record {
  init = [];
  start = λ call c. next_reply c;
  cont = λ call status c. next_reply c;
  poll = λ c e. (ready e, c);
  errno = λ c. 0;
  error = λ c. [];
  use_result = λ c. (1, c);
  field_count = λ c. 1;
  fields = λ r c. [];
  cells = λ r c. [];
  insert_id = λ c. 5;
  affected_rows = λ c. 1;
  stmt_init = λ c. (9, c);
  stmt_param_count = λ stmt c. 1;
  stmt_error = λ stmt c. [];
  stmt_bind_param = λ stmt binds buffers c. (0, c);
  stmt_execute = λ stmt c. (0, c);
  stmt_result_metadata = λ stmt c. (1, c);
  stmt_store_result = λ stmt c. (0, c);
  stmt_bind_result = λ stmt c. (0, c);
  stmt_fetch = λ stmt c. fetch_next c;
  free_result_blocking = λ r c. c;
  thread_steps = λ c. 2;
  ulong_bytes = λ n. n ∷ [];
  numbers = record { atof = λ s. pos 0; of_int = λ z. z; of_integer = λ z. z };
  integer_bits = 64;
  garbage = 77;
  fresh_key = λ r. 0;
  fresh_address = λ used. 100;
  react = λ log. record { commands = []; raises = false };
}

with_counts_exact_example :
    (id affected : ℤ) × (with_counts exact []
        (record { rows = []; last_insert_id = none; affected_rows = none })
      ≡ record { rows = []; last_insert_id = some id; affected_rows = some affected })
    × (id ≡ pos 5)
    × (affected ≡ pos 1)
with_counts_exact_example =
    with_counts_exact exact (λ z. z) []
      (record { rows = []; last_insert_id = none; affected_rows = none }) (λ z p. refl) refl
      (omega arith) (omega arith) (omega arith)
