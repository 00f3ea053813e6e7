-- ===== src/Worker/Loop.antt =====
-- services/worker/main.py: the process around the sweep. Whether an attempt reaches the database,
-- the clocks, the signals and what the other processes do to the tables are arguments; the lines of
-- the log are left out.
use mandate_razorpay_control.Prelude.{
  ℕ, zero, suc, ◌+◌, ◌≤◌, ◌≡◌, Bool, true, false, List, [], ◌∷◌, All, arith, if◌then◌else◌,
}
use mandate_razorpay_control.Core.Database.{Db, Result, ok, err}
use mandate_razorpay_control.Core.Outcomes.{OnOk, implied-OnOk}
use mandate_razorpay_control.Ledger.{Consistent}
use mandate_razorpay_control.Api.Gateway.{RazorpayClient}
use mandate_razorpay_control.Worker.{Worker, reconcile_stuck_reservations}
use mandate_razorpay_control.Worker.Sweep.{reconcile_stuck_reservations-counts}

pub data HeartbeatStatus : Type 0 where
  stopped : HeartbeatStatus
  starting : HeartbeatStatus
  running : HeartbeatStatus

-- The globals of the process, and the tables.
pub record Process : Type 0 where
  pub status : HeartbeatStatus
  pub worker_running : Bool
  pub worker : Worker
  pub tables : Db

-- What one sweep meets: the gateway and the readings of the clock.
pub record Moment : Type 0 where
  pub razorpay : RazorpayClient
  pub now : ℕ
  pub later : ℕ → ℕ

-- One turn of the loop: its sweep, and what happens while it sleeps.
pub record Cycle : Type 0 where
  pub moment : Moment
  pub meanwhile : Db → Db
  pub signalled : Bool
  pub cancelled : Bool

abbrev at_status : HeartbeatStatus → Process → Process
at_status s p = record p { status = s }

-- `shutdown_handler`
abbrev pub shutdown_handler : Process → Process
shutdown_handler p = record p { worker_running = false }

-- How the attempts to reach the database end, after how many seconds of waiting.
pub data Startup : Type 0 where
  ready : ℕ → Startup
  unready : ℕ → Startup
  fatal : ℕ → Startup

abbrev give_up : Bool → ℕ → Startup
give_up production waited = if production then fatal waited else unready waited

-- The attempts from `attempt` on, `left` of which come after this one.
unfoldable pub attempts : (ℕ → Bool) → Bool → ℕ → ℕ → ℕ → Startup
attempts reaches production attempt zero waited =
    if reaches attempt then ready waited else give_up production waited
attempts reaches production attempt (suc left) waited =
    let rest = attempts reaches production (attempt + 1) left (waited + attempt) in
    if reaches attempt then ready waited else rest

-- Five attempts.
abbrev pub connect : (ℕ → Bool) → Bool → Startup
connect reaches production = attempts reaches production 1 4 0

-- A sweep that raises is logged; its session is closed without a commit.
abbrev after_sweep : Process → Result (Worker × (Db × ℕ)) → Process
after_sweep p (ok (w, (db, n))) = record p { worker = w; tables = db }
after_sweep p (err e) = p

abbrev pub guarded_sweep : ℕ → Moment → Process → Process
guarded_sweep timeout_seconds m p =
    after_sweep p
      (reconcile_stuck_reservations m.razorpay timeout_seconds m.now m.later p.worker p.tables)

abbrev woken : Cycle → Process → Process
woken c p = record p {
  tables = c.meanwhile p.tables;
  worker_running = if c.signalled then false else p.worker_running;
}

-- The loop on the turns that are given; with none left it is still at its test.
unfoldable pub cycles : List Cycle → Process → Process
cycles [] p = p
cycles (c ∷ cs) p =
    let swept = guarded_sweep 120 c.moment p in
    let rest = cycles cs (woken c swept) in
    if p.worker_running
    then if c.cancelled then at_status stopped swept else rest
    else at_status stopped p

abbrev begin : Moment → List Cycle → Process → Process
begin first cs p = cycles cs (guarded_sweep 60 first (at_status running p))

-- How the process ends: with an error, or at the end of the turns that are given.
pub data Exit : Type 0 where
  raised : Process → Exit
  returned : Process → Exit

abbrev run_from : Startup → Moment → List Cycle → Process → Exit
run_from (ready waited) first cs p = returned (begin first cs p)
run_from (unready waited) first cs p = returned (begin first cs p)
run_from (fatal waited) first cs p = raised p

unfoldable pub run_worker_loop : (ℕ → Bool) → Bool → Moment → List Cycle → Process → Exit
run_worker_loop reaches production first cs p =
    run_from (connect reaches production) first cs (at_status starting p)

abbrev tables_of : Exit → Db
tables_of (raised p) = p.tables
tables_of (returned p) = p.tables

guarded_sweep-Consistent :
    (timeout_seconds : ℕ) (m : Moment) (p : Process)
    → Consistent p.tables
    → Consistent (guarded_sweep timeout_seconds m p).tables
guarded_sweep-Consistent timeout_seconds m p v = swept p _ v (
    implied-OnOk (λ x. Consistent x.1.0) (λ x h. h.0)
      (reconcile_stuck_reservations m.razorpay timeout_seconds m.now m.later p.worker p.tables)
      (reconcile_stuck_reservations-counts m.razorpay timeout_seconds m.now m.later p.worker
        p.tables v))
  where
    swept :
        (q : Process) (r : Result (Worker × (Db × ℕ)))
        → Consistent q.tables
        → OnOk (λ x. Consistent x.1.0) r
        → Consistent (after_sweep q r).tables
    swept q (ok x) c h = h
    swept q (err e) c h = c

-- What the other processes do between the sweeps.
abbrev pub Respectful : List Cycle → Type 0
Respectful cs = All (λ c. (db : Db) → Consistent db → Consistent (c.meanwhile db)) cs

cycles-Consistent :
    (cs : List Cycle) (p : Process)
    → Respectful cs
    → Consistent p.tables
    → Consistent (cycles cs p).tables
unfolding cycles
cycles-Consistent [] p r v = v
cycles-Consistent (c ∷ cs) p r v =
    let kept = guarded_sweep-Consistent 120 c.moment p v in
    let rest = cycles-Consistent cs (woken c (guarded_sweep 120 c.moment p)) r.1 (r.0 _ kept) in
    chosen p.worker_running c.cancelled _ _ _ v kept rest
  where
    chosen :
        (b d : Bool) (x y z : Process)
        → Consistent x.tables
        → Consistent y.tables
        → Consistent z.tables
        → Consistent (if b then if d then y else z else x).tables
    chosen false d x y z h k l = h
    chosen true true x y z h k l = k
    chosen true false x y z h k l = l

-- However often the loop turns, and whichever sweeps raise, the ledger stays consistent when the
-- other processes keep it so.
pub run_worker_loop-Consistent :
    (reaches : ℕ → Bool) (production : Bool) (first : Moment) (cs : List Cycle) (p : Process)
    → Respectful cs
    → Consistent p.tables
    → Consistent (tables_of (run_worker_loop reaches production first cs p))
unfolding run_worker_loop
run_worker_loop-Consistent reaches production first cs p r v = from (connect reaches production)
  where
    from : (s : Startup) → Consistent (tables_of (run_from s first cs (at_status starting p)))
    from (ready waited) = cycles-Consistent cs _ r (guarded_sweep-Consistent 60 first _ v)
    from (unready waited) = cycles-Consistent cs _ r (guarded_sweep-Consistent 60 first _ v)
    from (fatal waited) = v

unreached :
    (f : ℕ → Bool)
    → (f 1 ≡ false) × (f 2 ≡ false) × (f 3 ≡ false) × (f 4 ≡ false) × (f 5 ≡ false)
    → (n : ℕ) → 1 ≤ n
    → n ≤ 5
    → f n ≡ false
unreached f (a, b, c, d, e) zero h k = absurd (omega arith)
unreached f (a, b, c, d, e) (suc zero) h k = a
unreached f (a, b, c, d, e) (suc (suc zero)) h k = b
unreached f (a, b, c, d, e) (suc (suc (suc zero))) h k = c
unreached f (a, b, c, d, e) (suc (suc (suc (suc zero)))) h k = d
unreached f (a, b, c, d, e) (suc (suc (suc (suc (suc zero))))) h k = e
unreached f (a, b, c, d, e) (suc (suc (suc (suc (suc (suc n)))))) h k = absurd (omega arith)

-- The attempts take ten seconds of waiting at most, and only a process in production gives up.
pub connect-Bounded :
    (reaches : ℕ → Bool) (production : Bool) (waited : ℕ)
    → connect reaches production ≡ fatal waited
    → (production ≡ true) × (waited ≡ 10) × ((n : ℕ) → 1 ≤ n → n ≤ 5 → reaches n ≡ false)
unfolding attempts
connect-Bounded reaches production waited e =
    (ground arith, ground arith, unreached reaches (ground arith))
