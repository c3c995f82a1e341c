-- ===== src/User/Login.antt =====
-- What a login request leads to.
use shared_bike_server.Base.{
  ℕ, ◌≡◌, ◌≢◌, refl, inl, inr, ◌⊎◌, Bool, true, false, List, Option, none, some, arith, ◌==◌,
  if◌then◌else◌, Option-cases, Bool-cases, some_eq, ap, sym, ◌∙◌,
}
use shared_bike_server.Config.{EnvConfig}
use shared_bike_server.Events.{Event, login_response, login_rsp_ev, mobile_code_rsp_ev}
use shared_bike_server.Events.Codes.{errc_success, errc_invalid_data, get_reason_by_error_code}
use shared_bike_server.Sql.{Mysql, init}
use shared_bike_server.User.Service.{exist, insert}
use shared_bike_server.User.Handler.{
  Users, find_code, set_code, code_gen, handle_mobile_code_req, handle_login_req, login_rsp, opened,
  closed, wrong_code, looked_up, entered,
}
use shared_bike_server.User.Codes.{find_code-set_code, string_eq_refl}

pub right_code : (icode : ℕ) (o : Option ℕ) → wrong_code icode o ≡ false → o ≡ some icode
right_code icode none e = absurd cc
right_code icode (some code) e = ground arith

module _ {S : Type 0} (mysql : Mysql S) (conf : EnvConfig) where
  pub handle_login_req-wrong :
      (mobile : List ℕ) (icode sn : ℕ) (u : Users S)
      → wrong_code icode (find_code mobile u.m2c) ≡ true
      → handle_login_req mysql conf mobile icode (sn, u)
        ≡ login_rsp mysql conf errc_invalid_data sn u
  unfolding handle_login_req
  handle_login_req-wrong mobile icode sn u wrong = rw wrong refl

  -- A login for a number for which no code was sent, or with another code, is answered with 404,
  -- and nothing else happens: the codes stay, and the database is not connected to.
  pub handle_login_req-refused :
      (mobile : List ℕ) (icode sn : ℕ) (u : Users S)
      → find_code mobile u.m2c ≢ some icode
      → handle_login_req mysql conf mobile icode (sn, u)
        ≡ some
            (some (login_rsp_ev errc_invalid_data sn).0, ((login_rsp_ev errc_invalid_data sn).1, u))
  unfolding handle_login_req
  handle_login_req-refused mobile icode sn u wrong = elim (Option-cases (find_code mobile u.m2c)) [
    | inl no_code ↦ ground (arith, no_code)
    | inr (code, found) ↦ ground (arith, found)
  ]

  pub handle_login_req-known :
      (mobile : List ℕ) (icode sn : ℕ) (u : Users S)
      → find_code mobile u.m2c ≡ some icode
      → handle_login_req mysql conf mobile icode (sn, u)
        ≡ closed mysql conf sn u (opened mysql conf mobile (init mysql conf u.db))
  unfolding handle_login_req
  handle_login_req-known mobile icode sn u known = ground (arith, known)

  -- After a code was sent to a number, a login for it gets past the check exactly with that code,
  -- whatever codes there were before; all other logins for it are answered with 404.
  pub handle_login_req-mobile_code_req :
      (r : ℕ) (mobile : List ℕ) (icode sn : ℕ) (u : Users S)
      → (u' : Users S) × (sn' : ℕ) × (handle_mobile_code_req mysql conf r mobile (sn, u)
          ≡ some (some (mobile_code_rsp_ev errc_success (code_gen r) sn).0, (sn', u')))
        × (u'.db ≡ u.db)
        × (handle_login_req mysql conf mobile icode (sn', u') ≡ (
            if icode == code_gen r
            then closed mysql conf sn' u' (opened mysql conf mobile (init mysql conf u.db))
            else login_rsp mysql conf errc_invalid_data sn' u'))
  unfolding handle_mobile_code_req handle_login_req
  handle_login_req-mobile_code_req r mobile icode sn u = (
    record u { m2c = set_code mobile (code_gen r) u.m2c },
    (mobile_code_rsp_ev errc_success (code_gen r) sn).1,
    refl,
    refl,
    ground (arith, find_code-set_code mobile mobile (code_gen r) u.m2c, string_eq_refl mobile),
  )

  login_rsp_lem :
      (sn rc rc' : ℕ) (u : Users S) (ev : Event) (sn' : ℕ) (u' : Users S)
      → login_rsp mysql conf rc' sn u ≡ some (some ev, (sn', u'))
      → ev.msg ≡ login_response rc (get_reason_by_error_code rc)
      → (rc' ≡ rc) × (u ≡ u')
  unfolding login_rsp_ev
  login_rsp_lem sn rc rc' u ev sn' u' e m =
      let same = some_eq e in
      let msg : login_response rc' (get_reason_by_error_code rc') ≡ ev.msg =
        ap (λ event. event.msg) (some_eq (ap (λ p. p.0) same)) in
      (cc, ap (λ p. p.1.1) same)

  closed_lem :
      (sn rc : ℕ) (u : Users S) (o : Option (ℕ × S)) (ev : Event) (sn' : ℕ) (u' : Users S)
      → closed mysql conf sn u o ≡ some (some ev, (sn', u'))
      → ev.msg ≡ login_response rc (get_reason_by_error_code rc)
      → (db : S) × (o ≡ some (rc, db)) × (u'.m2c ≡ u.m2c) × (u'.db ≡ mysql.mysql_close db)
  closed_lem sn rc u none ev sn' u' e m = absurd cc
  closed_lem sn rc u (some (rc', db)) ev sn' u' e m =
      let (code, after) =
        login_rsp_lem sn rc rc' (record u { db = mysql.mysql_close db }) ev sn' u' e m in
      (db, rw code refl, sym (ap (λ v. v.m2c) after), sym (ap (λ v. v.db) after))

  entered_lem :
      (o : Option (Bool × S)) (db : S)
      → entered mysql conf o ≡ some (errc_success, db)
      → o ≡ some (true, db)
  entered_lem none db e = absurd cc
  entered_lem (some (false, db1)) db e = absurd (omega (arith, ap (λ p. p.0) (some_eq e)))
  entered_lem (some (true, db1)) db e = rw (ap (λ p. p.1) (some_eq e)) refl

  looked_up_lem :
      (mobile : List ℕ) (o : Option (Bool × S)) (db : S)
      → looked_up mysql conf mobile o ≡ some (errc_success, db)
      → (o ≡ some (true, db))
        ⊎ ((db1 : S) × (o ≡ some (false, db1)) × (insert mysql mobile db1 ≡ some (true, db)))
  looked_up_lem mobile none db e = absurd cc
  looked_up_lem mobile (some (false, db1)) db e =
      inr (db1, refl, entered_lem (insert mysql mobile db1) db e)
  looked_up_lem mobile (some (true, db1)) db e = inl (rw (ap (λ p. p.1) (some_eq e)) refl)

  opened_lem :
      (mobile : List ℕ) (r : Bool × S) (db : S)
      → opened mysql conf mobile r ≡ some (errc_success, db)
      → (r.0 ≡ true)
        × ((exist mysql mobile r.1 ≡ some (true, db))
            ⊎ ((db1 : S) × (exist mysql mobile r.1 ≡ some (false, db1))
                × (insert mysql mobile db1 ≡ some (true, db))))
  opened_lem mobile (false, s) db e = absurd (omega (arith, ap (λ p. p.0) (some_eq e)))
  opened_lem mobile (true, s) db e = (refl, looked_up_lem mobile (exist mysql mobile s) db e)

  -- A login that is answered with 200 gave the code of its number, the server had a handle for the
  -- database, and the user was found there or entered just now; the codes stay as they were.
  pub handle_login_req-success :
      (mobile : List ℕ) (icode sn : ℕ) (u : Users S) (ev : Event) (sn' : ℕ) (u' : Users S)
      → handle_login_req mysql conf mobile icode (sn, u) ≡ some (some ev, (sn', u'))
      → ev.msg ≡ login_response errc_success (get_reason_by_error_code errc_success)
      → (find_code mobile u.m2c ≡ some icode)
        × (u'.m2c ≡ u.m2c)
        × ((init mysql conf u.db).0 ≡ true)
        × (db : S) × (u'.db ≡ mysql.mysql_close db)
        × ((exist mysql mobile (init mysql conf u.db).1 ≡ some (true, db))
            ⊎ ((db1 : S) × (exist mysql mobile (init mysql conf u.db).1 ≡ some (false, db1))
                × (insert mysql mobile db1 ≡ some (true, db))))
  unfolding handle_login_req
  handle_login_req-success mobile icode sn u ev sn' u' e m =
      elim (Bool-cases (wrong_code icode (find_code mobile u.m2c))) [
        | inl wrong ↦ absurd (
            omega (
              arith,
              (login_rsp_lem sn errc_success errc_invalid_data u ev sn' u'
                  (sym (handle_login_req-wrong mobile icode sn u wrong) ∙ e) m).0,
            ))
        | inr right ↦
            (let known = right_code icode (find_code mobile u.m2c) right in
              let run = sym (handle_login_req-known mobile icode sn u known) ∙ e in
              let (db, result, codes, after) =
                closed_lem sn errc_success u (opened mysql conf mobile (init mysql conf u.db)) ev
                  sn' u' run m in
              let (ready, found) = opened_lem mobile (init mysql conf u.db) db result in
              (known, codes, ready, db, after, found))
      ]
