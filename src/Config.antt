-- ===== src/Config.antt =====
-- src/LogModule/configdef.h, iniconfig.h and iniconfig.cpp: the configuration, read once through
-- iniparser.
use shared_bike_server.Base.{
  ℕ, ◌<◌, ◌%◌, ◌^◌, ◌≡◌, Bool, true, false, List, Option, none, some, arith, codes, if◌then◌else◌,
}

-- st_env_config; the ports are unsigned shorts.
pub record EnvConfig : Type 0 where
  pub db_ip : List ℕ
  pub db_port : ℕ
  pub db_user : List ℕ
  pub db_passwd : List ℕ
  pub db_name : List ℕ
  pub server_port : ℕ

-- What is used of iniparser: a dictionary with texts and numbers (an `int` is its bit pattern), each
-- read with a default.
pub record Iniparser : Type 1 where
  pub Dictionary : Type 0
  pub load : List ℕ → Option Dictionary
  pub getstring : Dictionary → List ℕ → List ℕ → List ℕ
  pub getint : Dictionary → List ℕ → ℕ → ℕ

-- Iniconfig
pub record Iniconfig : Type 0 where
  pub config : EnvConfig
  pub isload : Bool

-- The constructor of st_env_config: a port is cut to 16 bits.
abbrev pub st_env_config : List ℕ → ℕ → List ℕ → List ℕ → List ℕ → ℕ → EnvConfig
st_env_config ip port user pwd db sport = record {
  db_ip = ip;
  db_port = port % 2 ^ 16;
  db_user = user;
  db_passwd = pwd;
  db_name = db;
  server_port = sport % 2 ^ 16;
}

module _ (ini : Iniparser) where
  open ini use {Dictionary, load, getstring, getint}

  abbrev pub read_config : Dictionary → EnvConfig
  read_config d =
      st_env_config (getstring d (codes "database:ip") (codes "127.0.0.1"))
        (getint d (codes "database:port") 3306) (getstring d (codes "database:user") (codes "root"))
        (getstring d (codes "database:pwd") (codes "88888888"))
        (getstring d (codes "database:db") (codes "shared_bike"))
        (getint d (codes "server:port") 9090)

  abbrev loaded : Iniconfig → Option Dictionary → Bool × Iniconfig
  loaded c none = (false, c)
  loaded c (some d) = (true, record { config = read_config d; isload = true })

  -- Iniconfig::load_file
  unfoldable pub load_file : List ℕ → Iniconfig → Bool × Iniconfig
  load_file path c = if c.isload then (false, c) else loaded c (load path)

  -- What a first successful load read stays: each later load is refused and changes nothing, also
  -- of another file.
  pub load_file_once :
      (path other : List ℕ) (c : Iniconfig)
      → (load_file path c).0 ≡ true
      → (load_file other (load_file path c).1 ≡ (false, (load_file path c).1))
        × ((load_file path c).1.config.db_port < 65536)
        × ((load_file path c).1.config.server_port < 65536)
  unfolding load_file
  load_file_once path other c ok = ground arith
