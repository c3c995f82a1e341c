-- ===== src/Tests/Login.antt =====
-- The user's requests at a concrete number.
use shared_bike_server.Base.{
  ℕ, zero, suc, replicate, ◌≡◌, ◌⊎◌, refl, List, [], ◌∷◌, ◌++◌, none, some, arith, length, true,
  false, ◌==◌, if◌then◌else◌, string_eq, some_eq,
}
use shared_bike_server.Events.{Event, login_rsp_ev, mobile_code_rsp_ev}
use shared_bike_server.Events.Codes.{
  find_reason, eer, get_reason_by_error_code, described, reason_of, get_reason-eq-reason_of,
}
use shared_bike_server.Net.Io.{libevent}
use shared_bike_server.Net.Response.{Connections}
use shared_bike_server.Sql.{init, execute, execute_into}
use shared_bike_server.Dispatch.Process.{Service, svc}
use shared_bike_server.Dispatch.Answer.{handle_all_response_event}
use shared_bike_server.Dispatch.Subscribers.{find_eid}
use shared_bike_server.User.Service.{c_str, sprintf_1024, exist, insert}
use shared_bike_server.User.Handler.{
  Users, find_code, code_gen, handle_mobile_code_req, handle_login_req, opened, closed, login_rsp,
}
use shared_bike_server.User.Codes.{string_eq_refl}
use shared_bike_server.User.Login.{
  handle_login_req-refused, handle_login_req-mobile_code_req, handle_login_req-success,
}
use shared_bike_server.User.Overflow.{Answers, handle_login_req-Answers, handle_login_req-overflow}
use shared_bike_server.Server.Login.{user_handle, svc-login}
use shared_bike_server.Tests.{plain, counting, default_config, mobile, login}

-- The number has the code 123456.
abbrev users : Users ℕ
users = record { m2c = (mobile, 123456) ∷ []; db = 0 }

get_reason-eq-reason_of_example :
    (find_reason 404 eer ≡ some (get_reason_by_error_code 404))
    × (get_reason_by_error_code 404 ≡ reason_of 404 described)
get_reason-eq-reason_of_example = get_reason-eq-reason_of 404

handle_login_req-refused_example :
    handle_login_req counting default_config mobile 111111 (0, users)
    ≡ some (some (login_rsp_ev 404 0).0, ((login_rsp_ev 404 0).1, users))
unfolding find_code string_eq
handle_login_req-refused_example =
    handle_login_req-refused counting default_config mobile 111111 0 users
      (λ e. absurd (omega (arith, some_eq e)))

handle_login_req-mobile_code_req_example :
    (u' : Users ℕ) × (sn' : ℕ) × (handle_mobile_code_req counting default_config 23456 mobile
        (0, users)
      ≡ some (some (mobile_code_rsp_ev 200 (code_gen 23456) 0).0, (sn', u')))
    × (u'.db ≡ 0)
    × (handle_login_req counting default_config mobile 123456 (sn', u') ≡ (
        if 123456 == code_gen 23456
        then closed counting default_config sn' u'
            (opened counting default_config mobile (init counting default_config 0))
        else login_rsp counting default_config 404 sn' u'))
handle_login_req-mobile_code_req_example =
    handle_login_req-mobile_code_req counting default_config 23456 mobile 123456 0 users

abbrev success : Event
success = (login_rsp_ev 200 0).0

handle_login_req-success_example :
    (find_code mobile users.m2c ≡ some 123456)
    × (users.m2c ≡ users.m2c)
    × ((init counting default_config 0).0 ≡ true)
    × (db : ℕ) × (2 ≡ db)
    × ((exist counting mobile (init counting default_config 0).1 ≡ some (true, db))
        ⊎ ((db1 : ℕ) × (exist counting mobile (init counting default_config 0).1
              ≡ some (false, db1))
            × (insert counting mobile db1 ≡ some (true, db))))
unfolding handle_login_req find_code string_eq init exist insert sprintf_1024 c_str execute
    execute_into login_rsp_ev
handle_login_req-success_example =
    handle_login_req-success counting default_config mobile 123456 0 users success 1
      (record users { db = 2 }) refl refl

handle_login_req-Answers_example :
    Answers counting default_config 0
      (handle_login_req counting default_config mobile 123456 (0, users))
unfolding c_str
handle_login_req-Answers_example =
    handle_login_req-Answers counting default_config mobile 123456 0 users (omega arith)

-- A number of 1000 digits, which has a code.
abbrev long_mobile : List ℕ
long_mobile = replicate 1000 49

abbrev long_users : Users ℕ
long_users = record { m2c = (long_mobile, 123456) ∷ []; db = 0 }

length-long_mobile : (n : ℕ) → length (c_str (replicate n 49)) ≡ n
unfolding c_str
length-long_mobile zero = refl
length-long_mobile (suc n) = omega (arith, length-long_mobile n)

find_code-long : find_code long_mobile long_users.m2c ≡ some 123456
unfolding find_code
find_code-long = rw (string_eq_refl long_mobile) refl

handle_login_req-overflow_example :
    handle_login_req counting default_config long_mobile 123456 (0, long_users) ≡ none
unfolding init
handle_login_req-overflow_example =
    handle_login_req-overflow counting default_config long_mobile 123456 0 long_users
      (omega (arith, length-long_mobile 1000)) find_code-long refl

abbrev service : Service (Users ℕ)
service = record {
  subscribers = (3, 9 ∷ []) ∷ [];
  svr_exit = false;
  response_events = [];
  sn = 0;
  world = users;
}

svc-login_example :
    (s' : Service (Users ℕ)) × (rsp : Event) × (svc
        (user_handle counting default_config 0)
        login
        service
      ≡ some s')
    × (s'.response_events ≡ [] ++ rsp ∷ [])
    × (rsp.eid ≡ 4)
    × (rsp.args ≡ some 7)
    × ((conns : Connections)
        → handle_all_response_event plain libevent (rsp ∷ []) conns ≡ some conns)
unfolding find_eid c_str
svc-login_example =
    svc-login counting default_config plain libevent 0 9 login mobile 123456 service refl refl refl
      refl (omega arith)
