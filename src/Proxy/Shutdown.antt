-- ===== src/Proxy/Shutdown.antt =====
-- proxy.go, Run: the server and its shutdown, beside the handlers that serve requests, the listener
-- of the configuration and the mirroring pool. Each goroutine's moves are steps, in any order.
pub mod Stages
pub mod Graceful
pub mod Ends
use l7_proxy.Prelude.{
  ℕ, zero, suc, ◌+◌, ◌≡◌, ◌⊎◌, Bool, true, false, List, [], ◌∷◌, ◌++◌, Option, none, some, All,
  get_elem?,
}
use l7_proxy.Mirroring.{Job}
use l7_proxy.Mirroring.Pool
use l7_proxy.Mirroring.Pool.{
  Pool, Worker, returned, Trial, Label, try_submit, submit_label, stop, take_label, move, set, Step,
  submits,
}

-- What Run returns: nil, or an error of the listener or of the shutdown.
pub data RunResult : Type 0 where
  stopped listen_error shutdown_error : RunResult

-- Where the main goroutine is: in the first select, in Shutdown, in the second select, or back.
pub data Phase : Type 0 where
  serving shutting waiting : Phase
  ended : RunResult → Phase

-- The goroutine that waits for the router's listener and then stops the pool, which closes `done`.
pub data Closer : Type 0 where
  absent listening stopping done : Closer

-- The server accepts connections or does not; so many handlers run. `router_done` is that the listener
-- of the configuration has returned, `cancelled` that the context of Run is.
pub record System : Type 0 where
  pub phase : Phase
  pub accepting : Bool
  pub handlers : ℕ
  pub cancelled : Bool
  pub router_done : Bool
  pub closer : Closer
  pub pool : Pool

unfoldable pub start : Pool → System
start pool = record {
  phase = serving;
  accepting = true;
  handlers = 0;
  cancelled = false;
  router_done = false;
  closer = absent;
  pool = pool;
}

pub data Move : System → List Label → System → Type 0 where
  -- A request arrives at a server that accepts, is mirrored by its handler, and leaves.
  arrive : {s : System} → s.accepting ≡ true → Move s [] (record s { handlers = suc s.handlers })
  -- One arrives on a connection that was accepted before, while Shutdown waits for those or behind
  -- an error of the listener.
  arrive_late :
      {s : System}
      → (s.phase ≡ shutting) ⊎ (s.phase ≡ ended listen_error)
      → Move s [] (record s { handlers = suc s.handlers })
  submit :
      {s : System} {n : ℕ} (j : Job)
      → s.handlers ≡ suc n
      → Move s
          (submit_label j (try_submit j s.pool).1 ∷ [])
          (record s { pool = (try_submit j s.pool).0 })
  leave : {s : System} {n : ℕ} → s.handlers ≡ suc n → Move s [] (record s { handlers = n })
  -- A signal, on which the listener of the configuration returns; nothing else closes its watcher.
  cancel : {s : System} → Move s [] (record s { cancelled = true })
  listener_returns : {s : System} → s.cancelled ≡ true → Move s [] (record s { router_done = true })
  -- `case err := <-errCh`: ListenAndServe returns an error; no connection is accepted any more.
  listen_fails :
      {s : System}
      → s.phase ≡ serving
      → Move s [] (record s { phase = ended listen_error; accepting = false })
  -- `case <-ctx.Done()`: Shutdown closes the listeners, and waits for the connections.
  begin_shutdown :
      {s : System}
      → s.phase ≡ serving
      → s.cancelled ≡ true
      → Move s [] (record s { phase = shutting; accepting = false })
  -- Shutdown returns nil when no request is served any more; the closer starts.
  shut :
      {s : System}
      → s.phase ≡ shutting
      → s.handlers ≡ 0
      → Move s [] (record s { phase = waiting; closer = listening })
  -- Shutdown returns an error, at its deadline; Close does not wait for handlers.
  shutdown_fails :
      {s : System} → s.phase ≡ shutting → Move s [] (record s { phase = ended shutdown_error })
  -- p.router.Wait() returns, and Stop closes the queue.
  router_waited :
      {s : System}
      → s.closer ≡ listening
      → s.router_done ≡ true
      → Move s (Label.silent ∷ []) (record s { closer = stopping; pool = stop s.pool })
  -- Stop returns when all workers have, and `done` is closed.
  pool_stopped :
      {s : System}
      → s.closer ≡ stopping
      → All (λ w. w ≡ returned) s.pool.workers
      → Move s [] (record s { closer = done })
  -- The second select: `done` is closed, or five seconds have passed.
  finish :
      {s : System}
      → s.phase ≡ waiting
      → s.closer ≡ done
      → Move s [] (record s { phase = ended stopped })
  give_up : {s : System} → s.phase ≡ waiting → Move s [] (record s { phase = ended stopped })
  -- A worker of the pool moves.
  work :
      {s : System} {q : Pool} {w w' : Worker} {o : Option Job} (i : ℕ) (trial : Trial)
      → get_elem? s.pool.workers i ≡ some w
      → move w trial s.pool ≡ some (w', q, o)
      → Move s (take_label o ∷ []) (record s { pool = record q { workers = set q.workers i w' } })

-- A run of the system, with the labels of the pool's steps in it.
pub data Run : System → List Label → System → Type 0 where
  here : {s : System} → Run s [] s
  next : {s t u : System} {ls ms : List Label} → Move s ls t → Run t ms u → Run s (ls ++ ms) u
