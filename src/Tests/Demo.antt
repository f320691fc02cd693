-- ===== src/Tests/Demo.antt =====
-- A client that plays back a list of replies, for concrete runs.
use gluamysql.Base.{ℕ, suc, ◌+◌, ◌<◌, ◌≡◌, refl, false, none, some, List, [], ◌∷◌, arith, length}
use gluamysql.Int.{ℤ, pos, negsuc}
use gluamysql.Row.{FieldType}
use gluamysql.Status.{ready}
use gluamysql.Lua.{Held, Event, Lua, entry, refnil}
use gluamysql.Host.{Fetched, Host, Reply, Reaction, FreshKeys}
use gluamysql.Database.{Db}
use gluamysql.Machine.{State}

-- One more than the sum of the keys in use.
abbrev pub key_sum : List (ℕ × Held ℕ) → ℕ
key_sum [] = 0
key_sum ((k, v) ∷ r) = k + key_sum r

abbrev pub next_reply : List Reply → Reply × List Reply
next_reply [] = (record { status = 0; out = none }, [])
next_reply (r ∷ rs) = (r, rs)

abbrev pub quiet : List (Event ℕ) → Reaction
quiet log = record { commands = []; raises = false }

-- A row for each reply that is left.
abbrev pub fetch_next : List Reply → Fetched × List Reply
fetch_next [] = (record { code = 100; columns = []; is_nulls = [] }, [])
fetch_next (r ∷ rs) = (record { code = 0; columns = (b'v' ∷ []) ∷ []; is_nulls = false ∷ [] }, rs)

-- Of the integers that are not negative this keeps all.
abbrev pub magnitude : ℤ → ℕ
magnitude (pos n) = n
magnitude (negsuc n) = suc n

-- Each call takes the next reply; the socket is always ready; `errno` and the reaction are given.
abbrev pub demo : ℕ → (List (Event ℕ) → Reaction) → Host (List Reply) ℕ
demo errno react = record {
  init = [];
  start = λ call c. next_reply c;
  cont = λ call status c. next_reply c;
  poll = λ c e. (ready e, c);
  errno = λ c. errno;
  error = λ c. b'x' ∷ [];
  use_result = λ c. (1, c);
  field_count = λ c. 1;
  fields = λ r c. record { name = b'n' ∷ []; type = FieldType.varchar } ∷ [];
  cells = λ r c. some (r ∷ []) ∷ [];
  insert_id = λ c. 5;
  affected_rows = λ c. 1;
  stmt_init = λ c. (9, c);
  stmt_param_count = λ stmt c. 1;
  stmt_error = λ stmt c. b'e' ∷ [];
  stmt_bind_param = λ stmt binds buffers c. (0, c);
  stmt_execute = λ stmt c. (0, c);
  stmt_result_metadata = λ stmt c. (1, c);
  stmt_store_result = λ stmt c. (0, c);
  stmt_bind_result = λ stmt c. (0, c);
  stmt_fetch = λ stmt c. fetch_next c;
  free_result_blocking = λ r c. c;
  thread_steps = λ c. 2;
  ulong_bytes = λ n. n ∷ [];
  numbers = record { atof = λ s. length s; of_int = λ z. 0; of_integer = magnitude };
  integer_bits = 64;
  garbage = 77;
  fresh_key = λ r. suc (key_sum r);
  fresh_address = λ used. 100;
  react = react;
}

entry-above : (k : ℕ) (r : List (ℕ × Held ℕ)) → key_sum r < k → entry k r ≡ none
unfolding entry
entry-above k [] h = refl
entry-above k ((j, v) ∷ r) h = ground (arith, entry-above k r)

pub demo-FreshKeys : (errno : ℕ) (react : List (Event ℕ) → Reaction) → FreshKeys (demo errno react)
demo-FreshKeys errno react r = entry-above (suc (key_sum r)) r (omega arith)

abbrev pub empty_lua : Lua ℕ
empty_lua = record { registry = []; promises = 0; log = [] }

-- A database of which nothing is asked.
abbrev pub idle_db : List Reply → Db (List Reply)
idle_db replies = record {
  address = 1;
  channel = record { instance = replies; socket_state = 0 };
  queue = [];
  stmts = [];
  current_action = none;
  reference = refnil;
  queue_reference = refnil;
  gced = false;
  cleared = false;
}

abbrev pub state_of : Db (List Reply) → Lua ℕ → State (List Reply) ℕ
state_of db lua = record { db = db; before = []; after = []; lua = lua; cleaned = false }
