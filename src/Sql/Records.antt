-- ===== src/Sql/Records.antt =====
-- SourceFiles/sqlconnection.cpp: SqlRecordSet as an object, and Execute into one that may hold a
-- result already; EscapeString and FetchRow, which nobody calls.
use shared_bike_server.Base.{
  ℕ, ◌≡◌, refl, Bool, true, false, List, Option, none, some, ◌==◌, if◌then◌else◌, Bool-cases, inl,
  inr,
}
use shared_bike_server.Sql.{Mysql, reconnect, failed, stored, execute_into}

-- What those two call of libmysqlclient: the next row of a result, and the length of the text that
-- is written with the text itself.
pub record Rows (S : Type 0) : Type 0 where
  pub mysql_fetch_row : ℕ → S → Option (List (List ℕ)) × S
  pub mysql_real_escape_string : List ℕ → S → ℕ × List ℕ

-- m_pRes, by the number of its rows; `none` is null.
abbrev pub SqlRecordSet : Type 0
SqlRecordSet = Option ℕ

abbrev pub sql_record_set : SqlRecordSet
sql_record_set = none

-- SetResult: `none` is the assertion that fails, which ends the program.
unfoldable pub set_result : ℕ → SqlRecordSet → Option SqlRecordSet
set_result res none = some (some res)
set_result res (some old) = none

-- The return value with the record set that holds these rows.
abbrev pub holding {ℓ} : {S : Type ℓ} → Option ℕ × S → Bool × SqlRecordSet × S
holding (none, s) = (false, none, s)
holding (some rows, s) = (true, some rows, s)

module _ {S : Type 0} (mysql : Mysql S) where
  -- ~SqlRecordSet
  unfoldable pub free_record_set : SqlRecordSet → S → S
  free_record_set none s = s
  free_record_set (some res) s = mysql.mysql_free_result s

  abbrev after_set : S → Option SqlRecordSet → Option (Bool × SqlRecordSet × S)
  after_set s none = none
  after_set s (some records) = some (true, records, s)

  abbrev set_stored : SqlRecordSet → Option ℕ × S → Option (Bool × SqlRecordSet × S)
  set_stored records (none, s) = some (false, records, s)
  set_stored records (some res, s) = after_set s (set_result res records)

  -- Execute into a given record set.
  unfoldable pub execute_record : List ℕ → SqlRecordSet → S → Option (Bool × SqlRecordSet × S)
  unfolding set_result reconnect
  execute_record sql records s =
      let (err, s') = mysql.mysql_real_query sql s in
      if err == 0
      then set_stored records (mysql.mysql_store_result s')
      else some (false, records, failed mysql s')

  set_stored-empty :
      (r : Option ℕ × S) → set_stored sql_record_set r ≡ some (holding (stored mysql r))
  unfolding set_result
  set_stored-empty (none, s) = refl
  set_stored-empty (some res, s) = refl

  -- Into an empty record set Execute does what execute_into says: it holds the rows afterwards if and
  -- only if true is returned.
  pub execute_record-execute_into :
      (sql : List ℕ) (s : S)
      → execute_record sql sql_record_set s ≡ some (holding (execute_into mysql sql s))
  unfolding execute_record execute_into
  execute_record-execute_into sql s =
      let (err, s') = mysql.mysql_real_query sql s in
      elim (Bool-cases (err == 0)) [
        | inl fine ↦ rw (fine) (set_stored-empty (mysql.mysql_store_result s'))
        | inr bad ↦ rw (bad) refl
      ]

module _ {S : Type 0} (rows : Rows S) where
  -- FetchRow: a row, or null behind the last; undefined without a result.
  unfoldable pub fetch_row : SqlRecordSet → S → Option (Option (List (List ℕ)) × S)
  fetch_row none s = none
  fetch_row (some res) s = some (rows.mysql_fetch_row res s)

  -- EscapeString over the handle and the text that is there at pDest: without a handle nothing is
  -- written.
  unfoldable pub escape_string : Bool → List ℕ → List ℕ → S → ℕ × List ℕ
  escape_string handle src dest s =
      if handle then rows.mysql_real_escape_string src s else (0, dest)
