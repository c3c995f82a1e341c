-- ===== src/Server/Start.antt =====
-- When the server starts to serve.
use shared_bike_server.Base.{
  ℕ, ◌≡◌, ◌≢◌, refl, Bool, true, false, List, [], ◌∷◌, Option, none, some, arith, ◌∙◌, ap, ◌<◌,
  subst, sym,
}
use shared_bike_server.Config.{Iniparser, load_file}
use shared_bike_server.Events.{Event}
use shared_bike_server.Sql.{Mysql, init}
use shared_bike_server.Sql.Tables.{init_tables}
use shared_bike_server.Pool.Task.{Task}
use shared_bike_server.Pool.Lifecycle.{
  Calls, null, opened, Opened, thread_pool_init, Prepared, thread_pool_init-opened,
  thread_pool_init-null,
}
use shared_bike_server.Pool.Worker.{Pool, new_pool}
use shared_bike_server.Dispatch.Subscribers.{handlers_of, find_eid, has_handler}
use shared_bike_server.User.Subscription.{user_event_handler, handlers_of-user_event_handler}
use shared_bike_server.Server.{Server, Main, serving, open_, main, business}

module _ {S : Type 0} (ini : Iniparser) (mysql : Mysql S)
    (user_info_table bike_info_table : List ℕ) where
  abbrev begun : (path : List ℕ) → Server S → Server S
  begun path s =
      let config = (load_file ini path s.config).1 in
      record s { config = config; db = (init mysql config.config s.db).1 }

  main-business :
      (path : List ℕ) (calls : Calls) (cells : ℕ → Option (Task Event)) (h : ℕ) (s : Server S)
      → (load_file ini path s.config).0 ≡ true
      → (init mysql (load_file ini path s.config).1.config s.db).0 ≡ true
      → main ini mysql user_info_table bike_info_table 3 true path calls cells h s
        ≡ business ini mysql user_info_table bike_info_table calls cells h (begun path s)
  unfolding main
  main-business path calls cells h s loaded ready = ground (arith, loaded, ready)

  -- The server in its loop: it has one handler, which is called for the two requests.
  abbrev pub Serves : ℕ → Option (Pool Event) → Main S → Type 0
  Serves h tp m =
      (s' : Server S) × (m ≡ serving s')
      × (s'.tp ≡ tp)
      × (handlers_of 1 s'.subscribers ≡ h ∷ [])
      × (handlers_of 3 s'.subscribers ≡ h ∷ [])
      × (s'.svr_exit ≡ false)

  business-Serves :
      (calls : Calls) (cells : ℕ → Option (Task Event)) (h : ℕ) (s : Server S) (o : Opened Event)
      (tp : Option (Pool Event))
      → s.subscribers ≡ []
      → ((s' : Server S) → open_ s' o ≡ serving (record s' { svr_exit = false; tp = tp }))
      → thread_pool_init calls cells 0 ≡ o
      → Serves h tp (business ini mysql user_info_table bike_info_table calls cells h s)
  unfolding find_eid has_handler
  business-Serves calls cells h s o tp nobody opens pool =
      let s' = record s {
        db = (init_tables mysql user_info_table bike_info_table s.db).1;
        subscribers = user_event_handler h s.subscribers;
      } in
      (
        record s' { svr_exit = false; tp = tp },
        ap (open_ s') pool ∙ opens s',
        refl,
        subst (λ m. handlers_of 1 (user_event_handler h m) ≡ h ∷ []) (sym nobody)
            (handlers_of-user_event_handler h 1 [] refl),
        subst (λ m. handlers_of 3 (user_event_handler h m) ≡ h ∷ []) (sym nobody)
            (handlers_of-user_event_handler h 3 [] refl),
        refl,
      )

  module _ (path : List ℕ) (calls : Calls) (cells : ℕ → Option (Task Event)) (h : ℕ) (s : Server S)
      (loaded : (load_file ini path s.config).0 ≡ true)
      (ready : (init mysql (load_file ini path s.config).1.config s.db).0 ≡ true)
      (prepared : Prepared calls) (nobody : s.subscribers ≡ []) where
    -- A server that is started with two arguments, whose log module is set up, whose configuration
    -- is loaded, that gets a handle of the database and can create its threads, serves with a new
    -- pool and its handler for the two requests; whether the tables could be created or the database
    -- be connected to does not matter.
    pub main-serving :
        ((k : ℕ) → k < 4 → calls.create k ≡ 0)
        → Serves h
            (some (new_pool cells 0))
            (main ini mysql user_info_table bike_info_table 3 true path calls cells h s)
    unfolding open_
    main-serving fine =
        subst (Serves h (some (new_pool cells 0)))
          (sym (main-business path calls cells h s loaded ready))
          (business-Serves calls cells h (begun path s) (opened (new_pool cells 0))
            (some (new_pool cells 0)) nobody (λ s'. refl)
            (thread_pool_init-opened calls cells 0 prepared fine))

    -- Such a server serves also when the creation of one of the four threads fails, but without a
    -- pool.
    pub main-serving_without_pool :
        (k : ℕ)
        → k < 4
        → ((j : ℕ) → j < k → calls.create j ≡ 0)
        → calls.create k ≢ 0
        → Serves h none (main ini mysql user_info_table bike_info_table 3 true path calls cells h s)
    unfolding open_
    main-serving_without_pool k small others bad =
        subst (Serves h none) (sym (main-business path calls cells h s loaded ready)) (
          business-Serves calls cells h (begun path s) (null k) none nobody (λ s'. refl)
            (thread_pool_init-null calls cells 0 k prepared small others bad))

  -- The server serves only if it has two arguments, a log module, a configuration that could be read
  -- and was not there before, and a handle of the database.
  pub main-serving_only_if :
      (argc : ℕ) (logger : Bool) (path : List ℕ) (calls : Calls) (cells : ℕ → Option (Task Event))
      (h : ℕ) (s s' : Server S)
      → main ini mysql user_info_table bike_info_table argc logger path calls cells h s ≡ serving s'
      → (argc ≡ 3)
        × (logger ≡ true)
        × (s.config.isload ≡ false)
        × ((load_file ini path s.config).0 ≡ true)
        × ((init mysql (load_file ini path s.config).1.config s.db).0 ≡ true)
  unfolding main load_file
  main-serving_only_if argc logger path calls cells h s s' e = ground (arith, e)
