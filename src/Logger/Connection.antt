-- ===== src/Logger/Connection.antt =====
-- `newSupabaseConnection` of internal/logger/database.go, with the pools that it makes and closes.
-- The package pgx is a parameter.
use perion_assignment.Common.{ℕ, ◌≡◌, refl, Option, none, some, List, [], ◌∷◌, ◌++◌}
use perion_assignment.Text.{Text, codes, decimal}
use perion_assignment.Models.Errors.{GoError, wrapped, error_text, Result, ok, err}

-- What the function calls: `pgxpool.ParseConfig`, `pgxpool.NewWithConfig`, `Ping`, and `Exec` with a
-- statement. The settings of the pool are part of `new_with_config`.
pub record Pgx (C P : Type 0) : Type 0 where
  pub parse_config : Text → Result C
  pub port : C → ℕ
  pub new_with_config : C → Result P
  pub ping : P → Option GoError
  pub exec_create_table : P → Option GoError

-- The answer, with the pools that were made and those that were closed.
pub record Connected (P : Type 0) : Type 0 where
  pub answer : Result P
  pub made : List P
  pub closed : List P

abbrev pub because : {P : Type 0} → Text → GoError → Result P
because text e = err (wrapped (text ++ error_text e) e)

abbrev pub closes : {P : Type 0} → P → Text → GoError → Connected P
closes pool text e = record { answer = because text e; made = pool ∷ []; closed = pool ∷ [] }

-- From the answer of `createTableIfNotExists` on.
abbrev pub on_table : {P : Type 0} → P → Option GoError → Connected P
on_table pool none = record { answer = ok pool; made = pool ∷ []; closed = [] }
on_table pool (some e) = closes pool (codes "failed to create logs table: ") e

module _ {C P : Type 0} where
  abbrev pub on_ping : Pgx C P → C → P → Option GoError → Connected P
  on_ping pgx config pool none = on_table pool (pgx.exec_create_table pool)
  on_ping pgx config pool (some e) =
      closes pool
        (codes "database ping failed. check if project is paused or network blocks port "
          ++ decimal (pgx.port config)
          ++ codes ": ")
        e

  abbrev pub on_pool : Pgx C P → C → Result P → Connected P
  on_pool pgx config (err e) = record {
    answer = because (codes "failed to create supabase connection pool: ") e;
    made = [];
    closed = [];
  }
  on_pool pgx config (ok pool) = on_ping pgx config pool (pgx.ping pool)

  abbrev pub on_config : Pgx C P → Result C → Connected P
  on_config pgx (err e) = record {
    answer = because (codes "failed to parse supabase connection string: ") e;
    made = [];
    closed = [];
  }
  on_config pgx (ok config) = on_pool pgx config (pgx.new_with_config config)

  unfoldable pub new_supabase_connection : Pgx C P → Text → Connected P
  new_supabase_connection pgx connection = on_config pgx (pgx.parse_config connection)

  -- The two ways of a connection: a pool that is open, answers and has the table, or an error.
  pub data Way (pgx : Pgx C P) (c : Connected P) : Type 0 where
    opens :
        (pool : P)
        → c.answer ≡ ok pool
        → c.made ≡ pool ∷ []
        → c.closed ≡ []
        → pgx.ping pool ≡ none
        → pgx.exec_create_table pool ≡ none
        → Way pgx c
    fails : (e : GoError) → c.answer ≡ err e → c.made ≡ c.closed → Way pgx c

  on_table-Way :
      (pgx : Pgx C P) (pool : P) (table : Option GoError)
      → pgx.ping pool ≡ none
      → pgx.exec_create_table pool ≡ table
      → Way pgx (on_table pool table)
  on_table-Way pgx pool none h k = opens pool refl refl refl h k
  on_table-Way pgx pool (some e) h k = fails _ refl refl

  on_ping-Way :
      (pgx : Pgx C P) (config : C) (pool : P) (answer : Option GoError)
      → pgx.ping pool ≡ answer
      → Way pgx (on_ping pgx config pool answer)
  on_ping-Way pgx config pool none h = on_table-Way pgx pool (pgx.exec_create_table pool) h refl
  on_ping-Way pgx config pool (some e) h = fails _ refl refl

  on_pool-Way : (pgx : Pgx C P) (config : C) (pool : Result P) → Way pgx (on_pool pgx config pool)
  on_pool-Way pgx config (err e) = fails _ refl refl
  on_pool-Way pgx config (ok pool) = on_ping-Way pgx config pool (pgx.ping pool) refl

  on_config-Way : (pgx : Pgx C P) (config : Result C) → Way pgx (on_config pgx config)
  on_config-Way pgx (err e) = fails _ refl refl
  on_config-Way pgx (ok config) = on_pool-Way pgx config (pgx.new_with_config config)

  -- No pool is lost: a connection is answered with the one pool that was made, which is open, has
  -- answered a ping and has the table; or it fails, and every pool that was made is closed.
  pub new_supabase_connection-Way :
      (pgx : Pgx C P) (connection : Text) → Way pgx (new_supabase_connection pgx connection)
  unfolding new_supabase_connection
  new_supabase_connection-Way pgx connection = on_config-Way pgx (pgx.parse_config connection)
