-- ===== src/User/Service.antt =====
-- UserService: the user of a mobile number, looked up and entered by SQL text that is put together
-- in a buffer of 1024 bytes.
use shared_bike_server.Base.{
  ℕ, ◌≡◌, Bool, false, not, List, [], ◌∷◌, ◌++◌, Option, none, some, arith, ltb, ◌==◌,
  if◌then◌else◌, codes, length, length-append,
}
use shared_bike_server.Sql.{Mysql, execute, execute_into, get_row_count}

-- `c_str()` read up to the first NUL, as `%s` does.
unfoldable pub c_str : List ℕ → List ℕ
c_str [] = []
c_str (c ∷ s) = if c == 0 then [] else c ∷ c_str s

-- `sprintf(sql_content, before "%s" after, s)`: undefined if the text and its NUL do not fit.
unfoldable pub sprintf_1024 : List ℕ → List ℕ → List ℕ → Option (List ℕ)
unfolding c_str
sprintf_1024 before s after =
    let text = before ++ c_str s ++ after in if ltb (length text) 1024 then some text else none

abbrev pub select_user : List ℕ
select_user = codes "SELECT * FROM userinfo WHERE mobile = "

abbrev pub insert_user : List ℕ
insert_user = codes "INSERT INTO userinfo (mobile) VALUES ("

module _ {S : Type 0} (mysql : Mysql S) where
  abbrev has_rows : Option ℕ × S → Bool × S
  has_rows (none, s) = (false, s)
  has_rows (some rows, s) = (not (get_row_count rows == 0), mysql.mysql_free_result s)

  abbrev and_select : Option (List ℕ) → S → Option (Bool × S)
  and_select none s = none
  and_select (some sql) s = some (has_rows (execute_into mysql sql s))

  abbrev and_insert : Option (List ℕ) → S → Option (Bool × S)
  and_insert none s = none
  and_insert (some sql) s = some (execute mysql sql s)

  -- UserService::exist, with the result set freed at its end; `none` is undefined behaviour.
  unfoldable pub exist : List ℕ → S → Option (Bool × S)
  exist mobile s = and_select (sprintf_1024 select_user mobile []) s

  -- UserService::insert
  unfoldable pub insert : List ℕ → S → Option (Bool × S)
  insert mobile s = and_insert (sprintf_1024 insert_user mobile (codes ")")) s

-- The statement of `exist` fits into its buffer exactly while the number, up to its first NUL, is
-- shorter than 986 bytes, and that of `insert` while it is shorter than 985; longer ones overflow.
pub sprintf_1024-fits :
    (mobile : List ℕ)
    → (sprintf_1024 select_user mobile [] ≡ (
        if ltb (length (c_str mobile)) 986 then some (select_user ++ c_str mobile ++ []) else none))
      × (sprintf_1024 insert_user mobile (codes ")") ≡ (
          if ltb (length (c_str mobile)) 985
          then some (insert_user ++ c_str mobile ++ codes ")")
          else none))
unfolding sprintf_1024
sprintf_1024-fits mobile = (
  ground (arith, length-append (c_str mobile) []),
  ground (arith, length-append (c_str mobile) (codes ")")),
)
