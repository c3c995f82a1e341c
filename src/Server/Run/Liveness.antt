-- ===== src/Server/Run/Liveness.antt =====
-- The running server when its clients are silent: what is on its way comes to its end.
use shared_bike_server.Base.{ℕ, ◌<◌, ◌≡◌, List, ◌∷◌, ◌++◌, some, length}
use shared_bike_server.Config.{EnvConfig}
use shared_bike_server.Sql.{Mysql}
use shared_bike_server.Events.{Event, login_request}
use shared_bike_server.Events.Codec.{Codec}
use shared_bike_server.Net.Io.{Bufferevent}
use shared_bike_server.Pool.Task.{job_at}
use shared_bike_server.Pool.Worker.{Pool, Worker, Act, moved, cycle}
use shared_bike_server.Pool.Worker.Gone.{all_gone}
use shared_bike_server.Pool.Worker.Turn.{AllIdle}
use shared_bike_server.Pool.Worker.Drain.{Turn}
use shared_bike_server.Dispatch.Subscribers.{Subscribers}
use shared_bike_server.Dispatch.Process.{Service}
use shared_bike_server.User.Service.{c_str}
use shared_bike_server.Server.Run.{Running, Step, Reach}
use shared_bike_server.Server.Run.Invariant.{Sane}

-- A number that fits into the buffers of the SQL statements, if it is a login.
abbrev pub Fits : Event → Type 0
Fits ev =
    (mobile : List ℕ) (icode : ℕ)
    → ev.msg ≡ login_request mobile icode
    → length (c_str mobile) < 985

abbrev pub AllFit : {S : Type 0} → Running S → Type 0
AllFit s = (a : ℕ) (ev : Event) → job_at s.tp.cells a ≡ some ev → Fits ev

module _ {S : Type 0} (mysql : Mysql S) (conf : EnvConfig) (codec : Codec) (io : Bufferevent)
    (h : ℕ) (s : Running S) (v : Sane h s) (fits : AllFit s) (ws vs : List Worker) where
  -- The server after a turn of the worker at w, who is at w' then.
  record Turned (w w' : Worker) (act : Act) (u : Running S) : Type 0 where
    stepped : Step mysql conf codec io s u
    sane : Sane h u
    fit : AllFit u
    after : u.threads ≡ ws ++ w' ∷ vs
    moves : cycle act w s.tp ≡ moved w' u.tp

module _ {S : Type 0} (mysql : Mysql S) (conf : EnvConfig) (codec : Codec) (io : Bufferevent)
    (h : ℕ) (start : Running S) where
  -- The workers have done what there was to do.
  record Rested (s u : Running S) : Type 0 where
    reached : Reach mysql conf codec io start u
    sane : Sane h u
    idle : AllIdle u.tp.queue.first u.threads
    same_gone : all_gone u.threads ≡ all_gone s.threads
    same_threads : length u.threads ≡ length s.threads
