-- ===== src/Proxy/Shutdown/Stages.antt =====
-- What every run of the server (proxy.go, Run) keeps at each stage of the shutdown.
use l7_proxy.Prelude.{
  ℕ, zero, suc, ◌≡◌, ◌≢◌, refl, sym, ap, ◌∙◌, ◌⊎◌, inl, inr, Bool, true, false, List, [], ◌∷◌,
  Option, some, All, get_elem?, arith, subst,
}
use l7_proxy.Prelude.Int.{ℤ}
use l7_proxy.Mirroring.{Job}
use l7_proxy.Mirroring.Pool.{
  Pool, Worker, returned, Trial, Label, new_pool, try_submit, stop, move, set,
}
use l7_proxy.Mirroring.Pool.Drain.{move-workers}
use l7_proxy.Mirroring.Pool.Ends.{move-ne-returned}
use l7_proxy.Proxy.Shutdown.{
  stopped, listen_error, shutdown_error, Phase, serving, shutting, waiting, ended, Closer, absent,
  listening, stopping, done, System, start, Move, arrive, arrive_late, submit, leave, cancel,
  listener_returns, listen_fails, begin_shutdown, shut, shutdown_fails, router_waited, pool_stopped,
  finish, give_up, work, Run, here, next,
}

-- What holds of the rest at each stage of the closer.
abbrev pub AtCloser : Closer → System → Type 0
AtCloser absent s = s.pool.stopped ≡ false
AtCloser listening s = (s.handlers ≡ 0) × (s.accepting ≡ false) × (s.pool.stopped ≡ false)
AtCloser stopping s = (s.handlers ≡ 0) × (s.accepting ≡ false) × (s.pool.stopped ≡ true)
AtCloser done s =
    (s.handlers ≡ 0)
    × (s.accepting ≡ false)
    × (s.pool.stopped ≡ true)
    × All (λ w. w ≡ returned) s.pool.workers

-- Until Shutdown has returned there is no closer.
abbrev pub AtPhase : Phase → Closer → Type 0
AtPhase serving c = c ≡ absent
AtPhase shutting c = c ≡ absent
AtPhase waiting c = Unit
AtPhase (ended listen_error) c = c ≡ absent
AtPhase (ended stopped) c = Unit
AtPhase (ended shutdown_error) c = Unit

-- Only a serving server accepts.
pub record Inv (s : System) : Type 0 where
  pub closed : (s.accepting ≡ false) ⊎ (s.phase ≡ serving)
  pub stage : AtCloser s.closer s
  pub early : AtPhase s.phase s.closer

no_closer :
    (s : System)
    → (s.phase ≡ shutting) ⊎ (s.phase ≡ ended listen_error)
    → AtPhase s.phase s.closer
    → s.closer ≡ absent
no_closer s (inl e) early = subst (λ h. AtPhase h s.closer) e early
no_closer s (inr e) early = subst (λ h. AtPhase h s.closer) e early

late-stage :
    (c : Closer) (s : System)
    → c ≡ absent
    → AtCloser c s
    → AtCloser c (record s { handlers = suc s.handlers })
late-stage absent s e h = h
late-stage listening s e h = cc
late-stage stopping s e h = cc
late-stage done s e h = cc

arrive-stage :
    (c : Closer) (s : System)
    → s.accepting ≡ true
    → AtCloser c s
    → AtCloser c (record s { handlers = suc s.handlers })
arrive-stage absent s e h = h
arrive-stage listening s e h = absurd (ground arith)
arrive-stage stopping s e h = absurd (ground arith)
arrive-stage done s e (h, a, k, all) = absurd (ground arith)

try_submit-stopped : (j : Job) (p : Pool) → (try_submit j p).0.stopped ≡ p.stopped
unfolding try_submit
try_submit-stopped j p = ground arith

submit-stage :
    (c : Closer) (s : System) (n : ℕ) (j : Job)
    → s.handlers ≡ suc n
    → AtCloser c s
    → AtCloser c (record s { pool = (try_submit j s.pool).0 })
submit-stage absent s n j e h = try_submit-stopped j s.pool ∙ h
submit-stage listening s n j e (h, a, k) = absurd (omega arith)
submit-stage stopping s n j e (h, a, k) = absurd (omega arith)
submit-stage done s n j e (h, a, k, all) = absurd (omega arith)

leave-stage :
    (c : Closer) (s : System) (n : ℕ)
    → s.handlers ≡ suc n
    → AtCloser c s
    → AtCloser c (record s { handlers = n })
leave-stage absent s n e h = h
leave-stage listening s n e (h, a, k) = absurd (omega arith)
leave-stage stopping s n e (h, a, k) = absurd (omega arith)
leave-stage done s n e (h, a, k, all) = absurd (omega arith)

shut_too : {b c : Bool} → (c ≡ b) ⊎ (c ≡ false) → b ≡ false → c ≡ false
shut_too (inl g) a = g ∙ a
shut_too (inr g) a = g

-- The closer's facts are about nothing but the handlers, the listener of the server and the pool.
same-stage :
    (c : Closer) (s t : System)
    → t.handlers ≡ s.handlers
    → t.pool ≡ s.pool
    → (t.accepting ≡ s.accepting) ⊎ (t.accepting ≡ false)
    → AtCloser c s
    → AtCloser c t
same-stage absent s t e f g h = ap (λ (p : Pool). p.stopped) f ∙ h
same-stage listening s t e f g (h, a, k) = (e ∙ h, shut_too g a, ap (λ (p : Pool). p.stopped) f ∙ k)
same-stage stopping s t e f g (h, a, k) = (e ∙ h, shut_too g a, ap (λ (p : Pool). p.stopped) f ∙ k)
same-stage done s t e f g (h, a, k, all) = (
  e ∙ h,
  shut_too g a,
  ap (λ (p : Pool). p.stopped) f ∙ k,
  subst (λ (p : Pool). All (λ w. w ≡ returned) p.workers) (sym f) all,
)

all_returned :
    (ws : List Worker) (i : ℕ) (w : Worker)
    → All (λ v. v ≡ returned) ws
    → get_elem? ws i ≡ some w
    → w ≡ returned
all_returned [] i w h e = cc
all_returned (x ∷ ws) zero w (h, hs) e = cc
all_returned (x ∷ ws) (suc i) w (h, hs) e = all_returned ws i w hs e

work-stage :
    (c : Closer) (s : System) (q : Pool) (w w' : Worker) (o : Option Job) (i : ℕ) (trial : Trial)
    → get_elem? s.pool.workers i ≡ some w
    → move w trial s.pool ≡ some (w', q, o)
    → AtCloser c s
    → AtCloser c (record s { pool = record q { workers = set q.workers i w' } })
work-stage absent s q w w' o i trial e m h = (move-workers w w' trial s.pool q o m).1 ∙ h
work-stage listening s q w w' o i trial e m (h, a, k) =
    (h, a, (move-workers w w' trial s.pool q o m).1 ∙ k)
work-stage stopping s q w w' o i trial e m (h, a, k) =
    (h, a, (move-workers w w' trial s.pool q o m).1 ∙ k)
work-stage done s q w w' o i trial e m (h, a, k, all) =
    absurd (move-ne-returned w trial s.pool m (all_returned s.pool.workers i w all e))

not_serving :
    (s : System) {f : Phase}
    → s.phase ≡ f
    → (s.accepting ≡ false) ⊎ (s.phase ≡ serving)
    → f ≢ serving
    → s.accepting ≡ false
not_serving s e (inl a) other = a
not_serving s e (inr b) other = absurd (other (sym e ∙ b))

stopped_now :
    (s : System) → AtCloser listening s → AtCloser stopping (record s { pool = stop s.pool })
unfolding stop
stopped_now s (h, a, k) = (h, a, ground arith)

-- A closer that has begun changes only behind the shutdown.
past : (h : Phase) (c d : Closer) {x : Closer} → c ≡ x → x ≢ absent → AtPhase h c → AtPhase h d
past serving c d e other k = absurd (other (sym e ∙ k))
past shutting c d e other k = absurd (other (sym e ∙ k))
past waiting c d e other k = tt
past (ended listen_error) c d e other k = absurd (other (sym e ∙ k))
past (ended stopped) c d e other k = tt
past (ended shutdown_error) c d e other k = tt

Move-Inv : {s t : System} {ls : List Label} → Move s ls t → Inv s → Inv t
Move-Inv (arrive {s} e) inv = record {
  closed = inv.closed;
  stage = arrive-stage s.closer s e inv.stage;
  early = inv.early;
}
Move-Inv (arrive_late {s} e) inv = record {
  closed = inv.closed;
  stage = late-stage s.closer s (no_closer s e inv.early) inv.stage;
  early = inv.early;
}
Move-Inv (submit {s} {n} j e) inv = record {
  closed = inv.closed;
  stage = submit-stage s.closer s n j e inv.stage;
  early = inv.early;
}
Move-Inv (leave {s} {n} e) inv = record {
  closed = inv.closed;
  stage = leave-stage s.closer s n e inv.stage;
  early = inv.early;
}
Move-Inv (cancel {s}) inv = record {
  closed = inv.closed;
  stage = same-stage s.closer s _ refl refl (inl refl) inv.stage;
  early = inv.early;
}
Move-Inv (listener_returns {s} e) inv = record {
  closed = inv.closed;
  stage = same-stage s.closer s _ refl refl (inl refl) inv.stage;
  early = inv.early;
}
Move-Inv (listen_fails {s} e) inv = record {
  closed = inl refl;
  stage = same-stage s.closer s _ refl refl (inr refl) inv.stage;
  early = subst (λ h. AtPhase h s.closer) e inv.early;
}
Move-Inv (begin_shutdown {s} e f) inv = record {
  closed = inl refl;
  stage = same-stage s.closer s _ refl refl (inr refl) inv.stage;
  early = subst (λ h. AtPhase h s.closer) e inv.early;
}
Move-Inv (shut {s} e f) inv = record {
  closed = inl (not_serving s e inv.closed (λ f. cc));
  stage = (
    f,
    not_serving s e inv.closed (λ f. cc),
    subst (λ c. AtCloser c s) (subst (λ h. AtPhase h s.closer) e inv.early) inv.stage,
  );
  early = tt;
}
Move-Inv (shutdown_fails {s} e) inv = record {
  closed = inl (not_serving s e inv.closed (λ f. cc));
  stage = same-stage s.closer s _ refl refl (inl refl) inv.stage;
  early = tt;
}
Move-Inv (router_waited {s} e f) inv = record {
  closed = inv.closed;
  stage = stopped_now s (subst (λ c. AtCloser c s) e inv.stage);
  early = past s.phase s.closer stopping e (λ f. cc) inv.early;
}
Move-Inv (pool_stopped {s} e all) inv = record {
  closed = inv.closed;
  stage = (let (h, a, k) = subst (λ c. AtCloser c s) e inv.stage in (h, a, k, all));
  early = past s.phase s.closer done e (λ f. cc) inv.early;
}
Move-Inv (finish {s} e f) inv = record {
  closed = inl (not_serving s e inv.closed (λ f. cc));
  stage = same-stage s.closer s _ refl refl (inl refl) inv.stage;
  early = tt;
}
Move-Inv (give_up {s} e) inv = record {
  closed = inl (not_serving s e inv.closed (λ f. cc));
  stage = same-stage s.closer s _ refl refl (inl refl) inv.stage;
  early = tt;
}
Move-Inv (work {s} {q} {w} {w'} {o} i trial e m) inv = record {
  closed = inv.closed;
  stage = work-stage s.closer s q w w' o i trial e m inv.stage;
  early = inv.early;
}

pub Run-Inv : {s t : System} {ls : List Label} → Run s ls t → Inv s → Inv t
Run-Inv here inv = inv
Run-Inv (next m run) inv = Run-Inv run (Move-Inv m inv)

pub start-Inv : (workers queue_size : ℤ) → Inv (start (new_pool workers queue_size))
unfolding start new_pool
start-Inv workers queue_size = record { closed = inr refl; stage = refl; early = refl }
