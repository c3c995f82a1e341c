-- ===== src/Pool/Locks.antt =====
-- thread_mutex.cpp and thread_cond.cpp: each function makes one pthread call, whose result is the
-- argument here, and turns it into T_OK or T_ERROR.
use shared_bike_server.Base.{ℕ, Bool, true, false, ◌==◌, if◌then◌else◌}

pub data Status : Type 0 where
  t_ok t_error : Status

abbrev pub is_ok : Status → Bool
is_ok t_ok = true
is_ok t_error = false

abbrev status_of : ℕ → Status
status_of err = if err == 0 then t_ok else t_error

-- thread_mutex_create: the results of pthread_mutexattr_init, pthread_mutexattr_settype,
-- pthread_mutex_init and pthread_mutexattr_destroy; the last is only logged.
unfoldable pub thread_mutex_create : ℕ → ℕ → ℕ → ℕ → Status
thread_mutex_create init settype mutex destroy =
    if init == 0
    then (if settype == 0 then (if mutex == 0 then t_ok else t_error) else t_error)
    else t_error

abbrev pub thread_mutex_destroy : ℕ → Status
thread_mutex_destroy err = status_of err

abbrev pub thread_mutex_lock : ℕ → Status
thread_mutex_lock err = status_of err

abbrev pub thread_mutex_unlock : ℕ → Status
thread_mutex_unlock err = status_of err

abbrev pub thread_cond_create : ℕ → Status
thread_cond_create err = status_of err

abbrev pub thread_cond_destroy : ℕ → Status
thread_cond_destroy err = status_of err

abbrev pub thread_cond_signal : ℕ → Status
thread_cond_signal err = status_of err

abbrev pub thread_cond_wait : ℕ → Status
thread_cond_wait err = status_of err
