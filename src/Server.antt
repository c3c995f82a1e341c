-- ===== src/Server.antt =====
-- src/main.cpp: the start of the server.
pub mod Start
pub mod Requests
pub mod Login
pub mod Exchange
pub mod Run
use shared_bike_server.Base.{
  ℕ, zero, suc, ◌≡◌, refl, Bool, true, false, List, [], ◌∷◌, Option, none, some, arith, ◌==◌,
  if◌then◌else◌,
}
use shared_bike_server.Base.Int.{ℤ, negsuc}
use shared_bike_server.Config.{Iniparser, Iniconfig, load_file}
use shared_bike_server.Events.{Event}
use shared_bike_server.Sql.{Mysql, init}
use shared_bike_server.Sql.Tables.{init_tables}
use shared_bike_server.Pool.Task.{Task}
use shared_bike_server.Pool.Worker.{Pool}
use shared_bike_server.Pool.Lifecycle.{Calls, Opened, fault, null, opened, thread_pool_init}
use shared_bike_server.Dispatch.Subscribers.{Subscribers}
use shared_bike_server.User.Subscription.{user_event_handler}

-- The singletons of the process and the database connection; `tp` is `none` for a null pool.
pub record Server (S : Type 0) : Type 0 where
  pub config : Iniconfig
  pub db : S
  pub subscribers : Subscribers
  pub svr_exit : Bool
  pub tp : Option (Pool Event)

-- main returned, crashed, or is in its loop.
pub data Main (S : Type 0) : Type 0 where
  returned : ℤ → Main S
  crashed : Main S
  serving : Server S → Main S

module _ {S : Type 0} (s : Server S) where
  -- DispatchMsgService::open. Its result is that of the pool, and main does not read it.
  unfoldable pub open_ : Opened Event → Main S
  open_ fault = crashed
  open_ (null n) = serving (record s { svr_exit = false; tp = none })
  open_ (opened tp) = serving (record s { svr_exit = false; tp = some tp })

  -- DispatchMsgService::close, when thread_pool_destroy has returned; queued responses stay.
  unfoldable pub close : Server S
  close = record s { svr_exit = true; subscribers = []; tp = none }

module _ {S : Type 0} (ini : Iniparser) (mysql : Mysql S)
    (user_info_table bike_info_table : List ℕ) where
  -- From the creation of BusinessProcessor on, whose handler is at address h; what `busPro.init()`
  -- returns is not read.
  abbrev pub business : Calls → (ℕ → Option (Task Event)) → ℕ → Server S → Main S
  business calls cells h s =
      let db = (init_tables mysql user_info_table bike_info_table s.db).1 in
      let s' = record s { db = db; subscribers = user_event_handler h s.subscribers } in
      open_ s' (thread_pool_init calls cells 0)

  abbrev connected : Calls → (ℕ → Option (Task Event)) → ℕ → Server S → Bool × S → Main S
  connected calls cells h s (false, db) = returned (negsuc 3)
  connected calls cells h s (true, db) = business calls cells h (record s { db = db })

  abbrev configured : Calls → (ℕ → Option (Task Event)) → ℕ → Server S → Bool × Iniconfig → Main S
  configured calls cells h s (false, config) = returned (negsuc 2)
  configured calls cells h s (true, config) =
      connected calls cells h (record s { config = config }) (init mysql config.config s.db)

  -- argc, whether the log module could be set up, and the path in argv[1].
  unfoldable pub main :
      ℕ → Bool → List ℕ → Calls → (ℕ → Option (Task Event)) → ℕ → Server S → Main S
  main argc logger path calls cells h s =
      if argc == 3
      then (if logger
          then configured calls cells h s (load_file ini path s.config)
          else returned (negsuc 1))
      else returned (negsuc 0)
