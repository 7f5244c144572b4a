-- ===== src/Store/Db.antt =====
-- The database behind sqlc's Queries, with the connection's faults: what a handler sees of one
-- statement.
use openseer.Base.{ℕ, ◌≡◌, refl, sym, ap, ◌∙◌, List, [], ◌∷◌, arith, Result, ok, err}
use openseer.Store.Errors.{DbError, unavailable}
use openseer.Store.Jobs.{AppJob}
use openseer.Store.Workers.{AppWorker}
use openseer.Store.Monitors.{AppMonitor}
use openseer.Store.Results.{ResultRow}
use openseer.Store.Results.Uptime.{UptimeBucket}
use openseer.Store.Sessions.{User, SessionRow}

-- What becomes of one statement: it is served; it never reaches the database; or it takes effect
-- and the answer is lost.
pub data Fault : Type 0 where
  served refused lost : Fault

pub record Database : Type 0 where
  pub jobs : List AppJob
  pub workers : List AppWorker
  pub monitors : List AppMonitor
  pub results : List ResultRow
  -- ts.results_agg_1h and ts.results_agg_1d.
  pub hourly : List UptimeBucket
  pub daily : List UptimeBucket
  pub users : List User
  pub sessions : List SessionRow
  -- NOW() of the statements of the request at hand.
  pub clock : ℕ
  -- What becomes of the statements to come; all those after the list are served.
  pub faults : List Fault

abbrev pub Db : Type 0 → Type 0
Db A = Database → Result DbError A × Database

module _ {A : Type 0} where
  -- One statement under the faults to come.
  unfoldable pub through : List Fault → Db A → Db A
  through [] q s = q (record s { faults = [] })
  through (served ∷ fs) q s = q (record s { faults = fs })
  through (refused ∷ fs) q s = (err unavailable, record s { faults = fs })
  through (lost ∷ fs) q s = (err unavailable, (q (record s { faults = fs })).1)

  -- One round trip to the database.
  unfoldable pub statement : Db A → Db A
  unfolding through
  statement q s = through s.faults q s

  -- With no fault to come, a statement is served.
  pub statement_served :
      (q : Db A) (s : Database) → s.faults ≡ [] → statement q s ≡ q (record s { faults = [] })
  unfolding statement through
  statement_served q s h = rw h refl

  through_keeps {κ} :
      (P : Database → Type κ) (q : Db A)
      → ((s : Database) (fs : List Fault) → P s → P (record s { faults = fs }))
      → ((s : Database) → P s → P (q s).1)
      → (fs : List Fault) (s : Database) → P s
      → P (through fs q s).1
  unfolding through
  through_keeps P q frame keep [] s h = keep _ (frame s [] h)
  through_keeps P q frame keep (served ∷ fs) s h = keep _ (frame s fs h)
  through_keeps P q frame keep (refused ∷ fs) s h = frame s fs h
  through_keeps P q frame keep (lost ∷ fs) s h = keep _ (frame s fs h)

  -- Whatever becomes of a statement, it keeps what the statement itself keeps.
  pub statement_keeps {κ} :
      (P : Database → Type κ) (q : Db A)
      → ((s : Database) (fs : List Fault) → P s → P (record s { faults = fs }))
      → ((s : Database) → P s → P (q s).1)
      → (s : Database) → P s
      → P (statement q s).1
  unfolding statement
  statement_keeps P q frame keep s h = through_keeps P q frame keep s.faults s h

  abbrev pub Served : Db A → Database → A → Database → Type 0
  Served q s a t =
      (fs : List Fault) × ((q (record s { faults = fs })).0 ≡ ok a)
      × (t ≡ (q (record s { faults = fs })).1)

  through_ok :
      (q : Db A) (fs : List Fault) (s : Database) {a : A}
      → (through fs q s).0 ≡ ok a
      → Served q s a (through fs q s).1
  unfolding through
  through_ok q [] s h = ([], h, refl)
  through_ok q (served ∷ fs) s h = (fs, h, refl)
  through_ok q (refused ∷ fs) s h = absurd (ground arith)
  through_ok q (lost ∷ fs) s h = absurd (ground arith)

  -- A statement that answers without an error was served.
  pub statement_ok :
      (q : Db A) (s : Database) {a : A} → (statement q s).0 ≡ ok a → Served q s a (statement q s).1
  unfolding statement
  statement_ok q s h = through_ok q s.faults s h

abbrev pub value_or : {A : Type 0} → A → Result DbError A → A
value_or d (ok a) = a
value_or d (err e) = d

-- A query that reads the tables and the clock only.
abbrev pub reading : {A : Type 0} → (Database → A) → Db A
reading f s = (ok (f s), s)

-- An answer of such a query is what it reads, and leaves all but the faults as it was.
pub reading_ok :
    {A : Type 0} (f : Database → A)
    → ((s : Database) (fs : List Fault) → f (record s { faults = fs }) ≡ f s)
    → (s : Database) {a : A} → (statement (reading f) s).0 ≡ ok a
    → (f s ≡ a) × ((fs : List Fault) × ((statement (reading f) s).1 ≡ record s { faults = fs }))
reading_ok f same s {a} h =
    let (fs, answer, t) = statement_ok (reading f) s h in
    (sym (same s fs) ∙ ap (value_or a) answer, (fs, t))
