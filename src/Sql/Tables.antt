-- ===== src/Sql/Tables.antt =====
-- src/SourceFiles/sqlTables.cpp and BusProcessor.cpp: the two tables are created when the server
-- starts. A statement is known by its name, since MySQL reads its text.
use shared_bike_server.Base.{ℕ, ◌≡◌, Bool, true, false, ◌&&◌, List, arith}
use shared_bike_server.Sql.{Mysql, execute}

module _ {S : Type 0} (mysql : Mysql S) (user_info_table bike_info_table : List ℕ) where
  unfoldable pub create_user_info : S → Bool × S
  create_user_info s = execute mysql user_info_table s

  unfoldable pub create_bike_table : S → Bool × S
  create_bike_table s = execute mysql bike_info_table s

  abbrev and_bike_table : Bool × S → Bool × S
  and_bike_table (false, s) = (false, s)
  and_bike_table (true, s) = create_bike_table s

  -- BusinessProcessor::init
  unfoldable pub init_tables : S → Bool × S
  init_tables s = and_bike_table (create_user_info s)

  -- The start reports success exactly if both statements ran without an error, the second on the
  -- state that the first left.
  pub init_tables_lem :
      (s : S)
      → (init_tables s).0 ≡ (
          (execute mysql user_info_table s).0
          && (execute mysql bike_info_table (execute mysql user_info_table s).1).0)
  unfolding init_tables create_user_info create_bike_table
  init_tables_lem s = ground arith
