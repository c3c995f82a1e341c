-- ===== src/Pool/Destroy.antt =====
-- thread_pool.cpp: thread_pool_destroy with thread_pool_exit_handler, between the steps of the
-- workers. The caller posts one task of its stack again and again, and spins after each post until a
-- worker has run it.
use shared_bike_server.Base.{
  ℕ, suc, ◌+◌, ◌≤◌, ◌≡◌, ◌≢◌, refl, sym, ap, ◌∙◌, subst, List, ◌∷◌, ◌++◌, some, arith, length,
  length-append,
}
use shared_bike_server.Pool.Locks.{t_ok, t_error}
use shared_bike_server.Pool.Task.{job_at}
use shared_bike_server.Pool.Worker.{
  Worker, running, exited, Act, exit_thread, moved, cycle, thread_task_post, thread_task_alloc,
}
use shared_bike_server.Pool.Worker.Reach.{System}
use shared_bike_server.Pool.Worker.Gone.{all_gone, all_gone-middle, all_gone-le, cycle-gone}

-- A task of the pool: thread_pool_exit_handler with the caller's `lock`, or any other.
pub data Job (J : Type 0) : Type 0 where
  exit_handler : Job J
  user : J → Job J

-- Where the caller stands: n posts are to come, or n are to come once `lock` is zero; returned
-- because a post failed; or the pool is gone.
pub data Destroyer : Type 0 where
  posting : ℕ → Destroyer
  spinning : ℕ → Destroyer
  returned : Destroyer
  destroyed : Destroyer

abbrev pub Closing : Type 0 → Type 0
Closing J = Destroyer × System (Job J)

module _ {J : Type 0} where
  -- thread_pool_destroy up to its loop: the task at address a of the stack.
  unfoldable pub thread_pool_destroy : ℕ → System (Job J) → Closing J
  thread_pool_destroy a (ws, p) = (posting p.threads, (ws, thread_task_alloc a exit_handler p))

  -- A step of the caller, whose task is at address a, or of a worker.
  pub data Step (a : ℕ) (s u : Closing J) : Type 0 where
    -- Lines 85 to 89.
    post :
        (n lock signal : ℕ)
        → s.0 ≡ posting (suc n)
        → thread_task_post lock signal a s.1.1 ≡ some (t_ok, u.1.1)
        → u.0 ≡ spinning n
        → u.1.0 ≡ s.1.0
        → Step a s u
    post_fails :
        (n lock signal : ℕ)
        → s.0 ≡ posting (suc n)
        → thread_task_post lock signal a s.1.1 ≡ some (t_error, u.1.1)
        → u.0 ≡ returned
        → u.1.0 ≡ s.1.0
        → Step a s u
    -- Lines 98 to 101.
    free : s.0 ≡ posting 0 → u.0 ≡ destroyed → u.1 ≡ s.1 → Step a s u
    -- thread_pool_exit_handler in a worker: `lock` is zero, and the thread ends.
    exit_worker :
        (ws vs : List Worker) (b n : ℕ)
        → s.1.0 ≡ ws ++ running b ∷ vs
        → job_at s.1.1.cells b ≡ some exit_handler
        → s.0 ≡ spinning n
        → cycle exit_thread (running b) s.1.1 ≡ moved exited u.1.1
        → u.1.0 ≡ ws ++ exited ∷ vs
        → u.0 ≡ posting n
        → Step a s u
    -- Any other step of a worker.
    work :
        (ws vs : List Worker) (w w' : Worker) (act : Act)
        → act ≢ exit_thread
        → s.1.0 ≡ ws ++ w ∷ vs
        → cycle act w s.1.1 ≡ moved w' u.1.1
        → u.1.0 ≡ ws ++ w' ∷ vs
        → u.0 ≡ s.0
        → Step a s u

  pub data Steps (a : ℕ) (s : Closing J) : Closing J → Type 0 where
    start : Steps a s s
    then_ : {t u : Closing J} → Steps a s t → Step a t u → Steps a s u

-- Each of the posts that are not to come any more has ended a thread.
abbrev Balance : ℕ → Destroyer → List Worker → Type 0
Balance threads (posting n) ws = threads ≤ n + all_gone ws
Balance threads (spinning n) ws = threads ≤ suc n + all_gone ws
Balance threads returned ws = Unit
Balance threads destroyed ws = threads ≤ all_gone ws

Balance-more :
    (threads : ℕ) (d : Destroyer) (ws vs : List Worker)
    → all_gone ws ≤ all_gone vs
    → Balance threads d ws
    → Balance threads d vs
Balance-more threads (posting n) ws vs h b = omega arith
Balance-more threads (spinning n) ws vs h b = omega arith
Balance-more threads returned ws vs h b = b
Balance-more threads destroyed ws vs h b = omega arith

module _ {J : Type 0} where
  Step-Balance :
      (threads a : ℕ) (s u : Closing J)
      → Step a s u
      → Balance threads s.0 s.1.0
      → Balance threads u.0 u.1.0
  Step-Balance threads a s u (post n lock signal before posted after same) b =
      let b0 : Balance threads (posting (suc n)) s.1.0 =
        subst (λ d. Balance threads d s.1.0) before b in
      subst (λ d. Balance threads d u.1.0) (sym after)
        (Balance-more threads (spinning n) s.1.0 u.1.0 (omega (arith, ap all_gone same)) b0)
  Step-Balance threads a s u (post_fails n lock signal before posted after same) b =
      subst (λ d. Balance threads d u.1.0) (sym after) tt
  Step-Balance threads a s u (free before after same) b =
      let b0 : Balance threads (posting 0) s.1.0 = subst (λ d. Balance threads d s.1.0) before b in
      subst (λ d. Balance threads d u.1.0) (sym after)
        (Balance-more threads destroyed s.1.0 u.1.0 (omega (arith, ap (λ t. all_gone t.0) same))
          (omega arith))
  Step-Balance threads a s u (exit_worker ws vs c n before job spin step after posts) b =
      let b0 : Balance threads (spinning n) s.1.0 = subst (λ d. Balance threads d s.1.0) spin b in
      subst (λ d. Balance threads d u.1.0) (sym posts)
        (omega (
          arith,
          b0,
          ap all_gone before,
          ap all_gone after,
          all_gone-middle ws (running c) vs,
          all_gone-middle ws exited vs,
        ))
  Step-Balance threads a s u (work ws vs w w' act other before step after same) b =
      subst (λ d. Balance threads d u.1.0) (sym same)
        (Balance-more threads s.0 s.1.0 u.1.0
          (omega (
            arith,
            cycle-gone act w w' s.1.1 u.1.1 step,
            ap all_gone before,
            ap all_gone after,
            all_gone-middle ws w vs,
            all_gone-middle ws w' vs,
          ))
          b)

  Steps-Balance :
      (threads a : ℕ) (s : Closing J) {u : Closing J}
      → Steps a s u
      → Balance threads s.0 s.1.0
      → Balance threads u.0 u.1.0
  Steps-Balance threads a s start b = b
  Steps-Balance threads a s (then_ {t} {u} r st) b =
      Step-Balance threads a t u st (Steps-Balance threads a s r b)

  Step-length : (a : ℕ) (s u : Closing J) → Step a s u → length u.1.0 ≡ length s.1.0
  Step-length a s u (post n lock signal before posted after same) = ap length same
  Step-length a s u (post_fails n lock signal before posted after same) = ap length same
  Step-length a s u (free before after same) = ap (λ t. length t.0) same
  Step-length a s u (exit_worker ws vs c n before job spin step after posts) = omega (
    arith,
    ap length before,
    ap length after,
    length-append ws (running c ∷ vs),
    length-append ws (exited ∷ vs),
  )
  Step-length a s u (work ws vs w w' act other before step after same) = omega (
    arith,
    ap length before,
    ap length after,
    length-append ws (w ∷ vs),
    length-append ws (w' ∷ vs),
  )

  Steps-length : (a : ℕ) (s : Closing J) {u : Closing J} → Steps a s u → length u.1.0 ≡ length s.1.0
  Steps-length a s start = refl
  Steps-length a s (then_ {t} {u} r st) = Step-length a t u st ∙ Steps-length a s r

  -- When thread_pool_destroy, which was called on a pool with as many workers as it has threads, frees
  -- the pool, each of them has ended, whatever else the workers did in between: none is left to touch
  -- the freed pool.
  pub thread_pool_destroy-all_gone :
      (a : ℕ) (s : System (Job J)) {u : Closing J}
      → length s.0 ≡ s.1.threads
      → Steps a (thread_pool_destroy a s) u
      → u.0 ≡ destroyed
      → all_gone u.1.0 ≡ length u.1.0
  unfolding thread_pool_destroy
  thread_pool_destroy-all_gone a s {u} whole r done =
      let b : Balance s.1.threads u.0 u.1.0 =
        Steps-Balance s.1.threads a (thread_pool_destroy a s) r (omega arith) in
      let b0 : Balance s.1.threads destroyed u.1.0 =
        subst (λ d. Balance s.1.threads d u.1.0) done b in
      omega (arith, b0, Steps-length a (thread_pool_destroy a s) r, all_gone-le u.1.0)
