-- ===== src/User/Handler.antt =====
-- UserEventHandler: the verification codes, one for each mobile number, and handle.
use shared_bike_server.Base.{
  ℕ, ◌+◌, ◌-◌, ◌%◌, Bool, true, false, not, List, [], ◌∷◌, Option, none, some, ◌==◌, if◌then◌else◌,
  string_eq,
}
use shared_bike_server.Config.{EnvConfig}
use shared_bike_server.Events.{
  Event, mobile_code_rsp_ev, login_rsp_ev, as_mobile_code_req, as_login_req,
}
use shared_bike_server.Events.Codes.{
  eeventid_get_moblie_code_req, eeventid_login_req, errc_success, errc_invalid_data,
  erro_proccess_failed,
}
use shared_bike_server.Sql.{Mysql, init}
use shared_bike_server.User.Service.{exist, insert}

-- m2c_, a map from mobile numbers to codes.
abbrev pub CodeMap : Type 0
CodeMap = List (List ℕ × ℕ)

unfoldable pub find_code : List ℕ → CodeMap → Option ℕ
find_code mobile [] = none
find_code mobile ((k, v) ∷ m) = if string_eq k mobile then some v else find_code mobile m

unfoldable pub set_code : List ℕ → ℕ → CodeMap → CodeMap
set_code mobile icode [] = (mobile, icode) ∷ []
set_code mobile icode ((k, v) ∷ m) =
    if string_eq k mobile then (k, icode) ∷ m else (k, v) ∷ set_code mobile icode m

-- code_gen, for the number that rand() returns after srand(time(NULL)).
unfoldable pub code_gen : ℕ → ℕ
code_gen r = r % (999999 - 100000) + 100000

-- `((iter != end) && (icode != iter->second)) || (iter == end)`
abbrev pub wrong_code : ℕ → Option ℕ → Bool
wrong_code icode none = true
wrong_code icode (some code) = not (icode == code)

-- What the handler shares between its calls, and the state of the database.
pub record Users (S : Type 0) : Type 0 where
  pub m2c : CodeMap
  pub db : S

module _ {S : Type 0} (mysql : Mysql S) (conf : EnvConfig) where
  -- handle_mobile_code_req for the number of the request, the number that rand() gives and the
  -- counter of sequence numbers.
  unfoldable pub handle_mobile_code_req :
      ℕ → List ℕ → ℕ × Users S → Option (Option Event × (ℕ × Users S))
  handle_mobile_code_req r mobile (sn, u) =
      let icode = code_gen r in
      let (rsp, sn') = mobile_code_rsp_ev errc_success icode sn in
      some (some rsp, (sn', record u { m2c = set_code mobile icode u.m2c }))

  abbrev pub login_rsp : ℕ → ℕ → Users S → Option (Option Event × (ℕ × Users S))
  login_rsp rc sn u = let (rsp, sn') = login_rsp_ev rc sn in some (some rsp, (sn', u))

  -- Each step gives the error code of the response and the database after it.
  abbrev pub entered : Option (Bool × S) → Option (ℕ × S)
  entered none = none
  entered (some (true, db)) = some (errc_success, db)
  entered (some (false, db)) = some (erro_proccess_failed, db)

  abbrev pub looked_up : List ℕ → Option (Bool × S) → Option (ℕ × S)
  looked_up mobile none = none
  looked_up mobile (some (true, db)) = some (errc_success, db)
  looked_up mobile (some (false, db)) = entered (insert mysql mobile db)

  abbrev pub opened : List ℕ → Bool × S → Option (ℕ × S)
  opened mobile (false, db) = some (erro_proccess_failed, db)
  opened mobile (true, db) = looked_up mobile (exist mysql mobile db)

  -- The destructor of MysqlConnection closes the connection on every way out.
  abbrev pub closed : ℕ → Users S → Option (ℕ × S) → Option (Option Event × (ℕ × Users S))
  closed sn u none = none
  closed sn u (some (rc, db)) = login_rsp rc sn (record u { db = mysql.mysql_close db })

  -- handle_login_req
  unfoldable pub handle_login_req : List ℕ → ℕ → ℕ × Users S → Option (Option Event × (ℕ × Users S))
  handle_login_req mobile icode (sn, u) =
      if wrong_code icode (find_code mobile u.m2c)
      then login_rsp errc_invalid_data sn u
      else closed sn u (opened mobile (init mysql conf u.db))

  abbrev as_code_req : ℕ → Option (List ℕ) → ℕ × Users S → Option (Option Event × (ℕ × Users S))
  as_code_req r none w = none
  as_code_req r (some mobile) w = handle_mobile_code_req r mobile w

  abbrev as_login : Option (List ℕ × ℕ) → ℕ × Users S → Option (Option Event × (ℕ × Users S))
  as_login none w = none
  as_login (some (mobile, icode)) w = handle_login_req mobile icode w

  -- handle, for an event that is not null; the branches for other requests are commented out in the
  -- source, so that these end in null like all other events.
  unfoldable pub handle : ℕ → Event → ℕ × Users S → Option (Option Event × (ℕ × Users S))
  handle r ev w =
      if ev.eid == eeventid_get_moblie_code_req
      then as_code_req r (as_mobile_code_req ev) w
      else if ev.eid == eeventid_login_req
      then as_login (as_login_req ev) w
      else some (none, w)
