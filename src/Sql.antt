-- ===== src/Sql.antt =====
-- src/HeaderFiles/sqlconnection.h and SourceFiles/sqlconnection.cpp: a connection and the result of
-- a query, over the MySQL client library.
pub mod Records
pub mod Tables
use shared_bike_server.Base.{
  ℕ, ◌%◌, ◌^◌, Bool, true, false, List, [], ◌∷◌, Option, none, some, ◌==◌, if◌then◌else◌,
}
use shared_bike_server.Config.{EnvConfig}

-- What the sources call of libmysqlclient, over the state S of the library and the server. Of a
-- result set only the number of its rows is read.
pub record Mysql (S : Type 0) : Type 0 where
  pub mysql_init : S → Bool × S
  pub mysql_real_connect : EnvConfig → S → Bool × S
  pub mysql_options_reconnect : S → ℕ × S
  pub mysql_real_query : List ℕ → S → ℕ × S
  pub mysql_errno : S → ℕ
  pub mysql_ping : S → S
  pub mysql_store_result : S → Option ℕ × S
  pub mysql_free_result : S → S
  pub mysql_close : S → S

abbrev pub cr_server_gone_error : ℕ
cr_server_gone_error = 2006

module _ {S : Type 0} (mysql : Mysql S) where
  -- MysqlConnection::Init: that the connection failed is logged, no more.
  abbrev connected : EnvConfig → Bool × S → Bool × S
  connected conf (false, s) = (false, s)
  connected conf (true, s) =
      (true, (mysql.mysql_options_reconnect (mysql.mysql_real_connect conf s).1).1)

  unfoldable pub init : EnvConfig → S → Bool × S
  init conf s = connected conf (mysql.mysql_init s)

  unfoldable pub reconnect : S → S
  reconnect s = mysql.mysql_ping s

  abbrev failed : S → S
  failed s = if mysql.mysql_errno s == cr_server_gone_error then reconnect s else s

  -- MysqlConnection::Execute without a result.
  unfoldable pub execute : List ℕ → S → Bool × S
  unfolding reconnect
  execute sql s =
      let (err, s') = mysql.mysql_real_query sql s in
      if err == 0 then (true, s') else (false, failed s')

  abbrev stored : Option ℕ × S → Option ℕ × S
  stored (rows, s) = (rows, s)

  -- MysqlConnection::Execute into an empty SqlRecordSet: the rows of the result, or `none` for the
  -- return value false.
  unfoldable pub execute_into : List ℕ → S → Option ℕ × S
  unfolding reconnect
  execute_into sql s =
      let (err, s') = mysql.mysql_real_query sql s in
      if err == 0 then stored (mysql.mysql_store_result s') else (none, failed s')

-- SqlRecordSet::GetRowCount: the library's 64 bits in an i32.
abbrev pub get_row_count : ℕ → ℕ
get_row_count rows = rows % 2 ^ 32
