-- ===== src/Pool/Lifecycle.antt =====
-- thread_pool.cpp: thread_pool_init with all its ways out.
use shared_bike_server.Base.{
  ℕ, zero, suc, ◌+◌, ◌<◌, ◌≡◌, ◌≢◌, refl, Bool, true, false, ◌==◌, if◌then◌else◌, arith, Option, ap,
  ◌∙◌, sym,
}
use shared_bike_server.Pool.Locks.{is_ok, thread_mutex_create, thread_cond_create}
use shared_bike_server.Pool.Task.{Task}
use shared_bike_server.Pool.Worker.{Pool, new_pool}

-- What the calls of thread_pool_init return: calloc, the four of thread_mutex_create,
-- pthread_cond_init, the two on the attributes, and the n-th pthread_create.
pub record Calls : Type 0 where
  pub calloc : Bool
  pub mutexattr_init : ℕ
  pub mutexattr_settype : ℕ
  pub mutex_init : ℕ
  pub mutexattr_destroy : ℕ
  pub cond_init : ℕ
  pub attr_init : ℕ
  pub attr_setdetachstate : ℕ
  pub create : ℕ → ℕ

-- A write through a null pool; null with the number of threads that were already started, which
-- run on the pool that was freed; or the pool.
pub data Opened (J : Type 0) : Type 0 where
  fault : Opened J
  null : ℕ → Opened J
  opened : Pool J → Opened J

zero_plus : (k : ℕ) → 0 + k ≡ k
zero_plus k = omega arith

-- What the calls before the creation of the threads have to return for the loop to be reached.
pub record Prepared (c : Calls) : Type 0 where
  pub alloc : c.calloc ≡ true
  pub mutex :
      is_ok
        (thread_mutex_create c.mutexattr_init c.mutexattr_settype c.mutex_init c.mutexattr_destroy)
      ≡ true
  pub cond : is_ok (thread_cond_create c.cond_init) ≡ true
  pub attr : c.attr_init ≡ 0
  pub detach : c.attr_setdetachstate ≡ 0

module _ {J : Type 0} where
  -- The loop from thread n on, with `left` threads to create.
  unfoldable pub create_threads : ℕ → ℕ → (ℕ → ℕ) → Pool J → Opened J
  create_threads zero n create tp = opened tp
  create_threads (suc left) n create tp =
      let rest = create_threads left (suc n) create tp in if create n == 0 then rest else null n

  unfoldable pub thread_pool_init : Calls → (ℕ → Option (Task J)) → ℕ → Opened J
  thread_pool_init c cells task_id =
      if c.calloc
      then (if is_ok (
            thread_mutex_create c.mutexattr_init c.mutexattr_settype c.mutex_init
              c.mutexattr_destroy)
          then (if is_ok (thread_cond_create c.cond_init)
              then (if c.attr_init == 0
                  then (if c.attr_setdetachstate == 0
                      then (let tp = new_pool cells task_id in
                          create_threads tp.threads 0 c.create tp)
                      else null 0)
                  else null 0)
              else null 0)
          else null 0)
      else fault

  create_threads-all :
      (left n : ℕ) (create : ℕ → ℕ) (tp : Pool J)
      → ((k : ℕ) → k < left → create (n + k) ≡ 0)
      → create_threads left n create tp ≡ opened tp
  unfolding create_threads
  create_threads-all zero n create tp fine = refl
  create_threads-all (suc left) n create tp fine =
      let ok : create n ≡ 0 = ap create (omega arith) ∙ fine 0 (omega arith) in
      rw ok (
        create_threads-all left (suc n) create tp
          (λ k h. ap create (omega arith) ∙ fine (suc k) (omega arith)))

  create_threads-fails :
      (left n k : ℕ) (create : ℕ → ℕ) (tp : Pool J)
      → k < left
      → ((j : ℕ) → j < k → create (n + j) ≡ 0)
      → create (n + k) ≢ 0
      → create_threads left n create tp ≡ null (n + k)
  unfolding create_threads
  create_threads-fails zero n k create tp h fine bad = absurd (omega arith)
  create_threads-fails (suc left) n zero create tp h fine bad =
      let same : n + 0 ≡ n = omega arith in
      let failed : (create n == 0) ≡ false = ground (arith, ap create same, bad) in
      rw (failed, same) refl
  create_threads-fails (suc left) n (suc k) create tp h fine bad =
      let ok : create n ≡ 0 = ap create (omega arith) ∙ fine 0 (omega arith) in
      let same : suc n + k ≡ n + suc k = omega arith in
      rw ok (
        create_threads-fails left (suc n) k create tp (omega arith)
          (λ j small. ap create (omega arith) ∙ fine (suc j) (omega arith))
          (λ e. bad (ap create (sym same) ∙ e))
        ∙ ap null same)

  thread_pool_init_loop :
      (c : Calls) (cells : ℕ → Option (Task J)) (task_id : ℕ)
      → Prepared c
      → thread_pool_init c cells task_id ≡ create_threads 4 0 c.create (new_pool cells task_id)
  unfolding thread_pool_init new_pool
  thread_pool_init_loop c cells task_id ready =
      rw (ready.alloc, ready.mutex, ready.cond, ready.attr, ready.detach) refl

  -- When all calls succeed, the creation of the four threads included, the new pool is returned.
  pub thread_pool_init-opened :
      (c : Calls) (cells : ℕ → Option (Task J)) (task_id : ℕ)
      → Prepared c
      → ((k : ℕ) → k < 4 → c.create k ≡ 0)
      → thread_pool_init c cells task_id ≡ opened (new_pool cells task_id)
  thread_pool_init-opened c cells task_id ready fine =
      thread_pool_init_loop c cells task_id ready
      ∙ create_threads-all 4 0 c.create (new_pool cells task_id)
          (λ k h. ap c.create (zero_plus k) ∙ fine k h)

  pub thread_pool_init-null :
      (c : Calls) (cells : ℕ → Option (Task J)) (task_id k : ℕ)
      → Prepared c
      → k < 4
      → ((j : ℕ) → j < k → c.create j ≡ 0)
      → c.create k ≢ 0
      → thread_pool_init c cells task_id ≡ null k
  thread_pool_init-null c cells task_id k ready h fine bad =
      thread_pool_init_loop c cells task_id ready
      ∙ create_threads-fails 4 0 k c.create (new_pool cells task_id) h
          (λ j small. ap c.create (zero_plus j) ∙ fine j small)
          (λ e. bad (ap c.create (sym (zero_plus k)) ∙ e))
      ∙ ap null (zero_plus k)
