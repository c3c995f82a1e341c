-- ===== src/User/Overflow.antt =====
-- When a login stays inside the buffers of its SQL statements.
use shared_bike_server.Base.{
  ℕ, ◌<◌, ◌≡◌, ◌≢◌, refl, inl, inr, Bool, true, false, List, Option, none, some, arith, Bool-cases,
  length, ap, ◌∙◌,
}
use shared_bike_server.Config.{EnvConfig}
use shared_bike_server.Events.{Event, login_rsp_ev}
use shared_bike_server.Events.Codes.{errc_invalid_data}
use shared_bike_server.Sql.{Mysql, init}
use shared_bike_server.User.Service.{exist, insert, c_str, sprintf_1024-fits}
use shared_bike_server.User.Handler.{
  Users, find_code, handle_login_req, opened, closed, wrong_code, looked_up, entered,
}
use shared_bike_server.User.Login.{handle_login_req-known, handle_login_req-wrong, right_code}

module _ {S : Type 0} (mysql : Mysql S) (conf : EnvConfig) where
  exist_short :
      (mobile : List ℕ) (s : S) → length (c_str mobile) < 985 → exist mysql mobile s ≢ none
  unfolding exist
  exist_short mobile s short = ground (arith, (sprintf_1024-fits mobile).0)

  insert_short :
      (mobile : List ℕ) (s : S) → length (c_str mobile) < 985 → insert mysql mobile s ≢ none
  unfolding insert
  insert_short mobile s short = ground (arith, (sprintf_1024-fits mobile).1)

  exist_long : (mobile : List ℕ) (s : S) → 985 < length (c_str mobile) → exist mysql mobile s ≡ none
  unfolding exist
  exist_long mobile s long = ground (arith, (sprintf_1024-fits mobile).0)

  entered_some : (o : Option (Bool × S)) → o ≢ none → entered mysql conf o ≢ none
  entered_some none h = absurd (h refl)
  entered_some (some (true, db)) h = λ e. cc
  entered_some (some (false, db)) h = λ e. cc

  looked_up_some :
      (mobile : List ℕ) (o : Option (Bool × S))
      → length (c_str mobile) < 985
      → o ≢ none
      → looked_up mysql conf mobile o ≢ none
  looked_up_some mobile none short h = absurd (h refl)
  looked_up_some mobile (some (true, db)) short h = λ e. cc
  looked_up_some mobile (some (false, db)) short h =
      entered_some (insert mysql mobile db) (insert_short mobile db short)

  opened_some :
      (mobile : List ℕ) (r : Bool × S)
      → length (c_str mobile) < 985
      → opened mysql conf mobile r ≢ none
  opened_some mobile (false, db) short = λ e. cc
  opened_some mobile (true, db) short =
      looked_up_some mobile (exist mysql mobile db) short (exist_short mobile db short)

  -- A response to a login, with some error code.
  abbrev pub Answers : ℕ → Option (Option Event × (ℕ × Users S)) → Type 0
  Answers sn r = (rc sn' : ℕ) × (u' : Users S) × (r ≡ some (some (login_rsp_ev rc sn).0, (sn', u')))

  closed_some :
      (sn : ℕ) (u : Users S) (o : Option (ℕ × S)) → o ≢ none → Answers sn (closed mysql conf sn u o)
  closed_some sn u none h = absurd (h refl)
  closed_some sn u (some (rc, db)) h =
      (rc, (login_rsp_ev rc sn).1, record u { db = mysql.mysql_close db }, refl)

  opened-none :
      (mobile : List ℕ) (r : Bool × S)
      → 985 < length (c_str mobile)
      → r.0 ≡ true
      → opened mysql conf mobile r ≡ none
  opened-none mobile (false, db) long ready = absurd cc
  opened-none mobile (true, db) long ready = rw (exist_long mobile db long) refl

  -- A login with a number shorter than 985 bytes stays inside its buffers, and is answered.
  pub handle_login_req-Answers :
      (mobile : List ℕ) (icode sn : ℕ) (u : Users S)
      → length (c_str mobile) < 985
      → Answers sn (handle_login_req mysql conf mobile icode (sn, u))
  handle_login_req-Answers mobile icode sn u short =
      elim (Bool-cases (wrong_code icode (find_code mobile u.m2c))) [
        | inl wrong ↦ (
          errc_invalid_data,
          (login_rsp_ev errc_invalid_data sn).1,
          u,
          handle_login_req-wrong mysql conf mobile icode sn u wrong,
        )
        | inr right ↦
            (let known = right_code icode (find_code mobile u.m2c) right in
              let (rc, sn', u', e) =
                closed_some sn u (opened mysql conf mobile (init mysql conf u.db))
                  (opened_some mobile (init mysql conf u.db) short) in
              (rc, sn', u', handle_login_req-known mysql conf mobile icode sn u known ∙ e))
      ]

  -- A login with a number longer than 985 bytes, the code that was sent to it and a handle for the
  -- database writes past the end of its buffer: the behaviour is undefined.
  pub handle_login_req-overflow :
      (mobile : List ℕ) (icode sn : ℕ) (u : Users S)
      → 985 < length (c_str mobile)
      → find_code mobile u.m2c ≡ some icode
      → (init mysql conf u.db).0 ≡ true
      → handle_login_req mysql conf mobile icode (sn, u) ≡ none
  handle_login_req-overflow mobile icode sn u long known ready =
      handle_login_req-known mysql conf mobile icode sn u known
      ∙ ap (closed mysql conf sn u) (opened-none mobile (init mysql conf u.db) long ready)
