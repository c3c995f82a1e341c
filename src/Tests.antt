-- ===== src/Tests.antt =====
-- Concrete inputs, on which the theorems are applied: a codec whose messages are sent as the bytes of
-- their text, a database that counts its statements, and pools with their calls.
pub mod Network
pub mod Threads
pub mod Draining
pub mod Running
pub mod Client
pub mod Dispatching
pub mod Login
pub mod Main
pub mod Wire
pub mod Messages
use shared_bike_server.Base.{
  ℕ, suc, ◌+◌, ◌≡◌, refl, Bool, true, false, List, [], ◌∷◌, ◌++◌, Option, none, some, codes, length,
}
use shared_bike_server.Config.{EnvConfig, Iniparser, Iniconfig}
use shared_bike_server.Events.{
  Message, Event, mobile_request, mobile_response, login_request, login_response, no_message,
}
use shared_bike_server.Events.Codec.{Codec}
use shared_bike_server.Sql.{Mysql}
use shared_bike_server.Pool.Task.{Task}

abbrev pub text_of : Message → List ℕ
text_of (mobile_request mobile) = mobile
text_of (mobile_response rc icode reason) = reason
text_of (login_request mobile icode) = mobile
text_of (login_response rc desc) = desc
text_of no_message = []

abbrev pub plain : Codec
plain = record {
  byte_size = λ m. length (text_of m);
  serialize = text_of;
  parse_mobile_request = some;
  parse_mobile_response = λ s. some (200, 123456, s);
  parse_login_request = λ s. some (s, 123456);
  parse_login_response = λ s. some (200, s);
  length-serialize = λ m. refl;
}

-- A database that counts the statements, in which no user is found and every one can be entered.
abbrev pub counting : Mysql ℕ
counting = record {
  mysql_init = λ s. (true, s);
  mysql_real_connect = λ conf s. (true, s);
  mysql_options_reconnect = λ s. (0, s);
  mysql_real_query = λ sql s. (0, suc s);
  mysql_errno = λ s. 0;
  mysql_ping = λ s. s;
  mysql_store_result = λ s. (some 0, s);
  mysql_free_result = λ s. s;
  mysql_close = λ s. s;
}

abbrev pub default_config : EnvConfig
default_config = record {
  db_ip = codes "127.0.0.1";
  db_port = 3306;
  db_user = codes "root";
  db_passwd = codes "88888888";
  db_name = codes "shared_bike";
  server_port = 9090;
}

-- Every file can be read and sets nothing.
abbrev pub empty_file : Iniparser
empty_file = record {
  Dictionary = List ℕ;
  load = some;
  getstring = λ d key default. default;
  getint = λ d key default. default;
}

abbrev pub unloaded : Iniconfig
unloaded = record { config = default_config; isload = false }

abbrev pub mobile : List ℕ
mobile = codes "15007819636"

abbrev pub login : Event
login = record { eid = 3; sn = 0; args = some 7; msg = login_request mobile 123456 }

-- Memory without a task.
abbrev pub no_task {ℓ} : {A : Type ℓ} → ℕ → Option A
no_task a = none
