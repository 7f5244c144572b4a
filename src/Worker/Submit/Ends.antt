-- ===== src/Worker/Submit/Ends.antt =====
-- How sendResult of internal/app/worker/polling.go ends, and when it does not.
use openseer.Base.{
  ℕ, suc, ◌+◌, ◌≤◌, ◌<◌, String, ◌≡◌, refl, inl, inr, Bool, true, false, not, ◌&&◌, List, [], ◌∷◌,
  arith, leb, if◌then◌else◌, Bool-cases, All, filter, any, count_if, ◌==◌, nat_eq, string_eq,
  str_eq_iff,
}
use openseer.Worker.{
  Worker, Answer, answered, rejected_token, failed_call, complete_job, is_job_active,
}
use openseer.Worker.Submit.{
  Round, SubmitEnd, submitted, gave_up, left, still_running, Turn, ends, again, next, retry,
  answer_turn, turn, send_loop, release, send_result,
}

abbrev pub is_rejected : Answer Bool → Bool
is_rejected (answered c) = false
is_rejected rejected_token = true
is_rejected failed_call = false

-- A round that answers with a rejected token, after which the renewal worked.
abbrev pub is_renewal : Round → Bool
is_renewal r = r.renewed && is_rejected r.answer

abbrev pub runs_on : SubmitEnd → Bool
runs_on still_running = true
runs_on _ = false

-- The rounds between which the attempts are counted.
abbrev Advances : ℕ → ℕ → Bool → Turn → Type 0
Advances max attempt renewal (ends e) = runs_on e ≡ false
Advances max attempt renewal again = renewal ≡ true
Advances max attempt renewal next = (attempt == max) ≡ false

retry-Advances :
    (max attempt : ℕ) (renewal waited : Bool)
    → Advances max attempt renewal (retry max attempt waited)
retry-Advances max attempt renewal waited = elim (Bool-cases (attempt == max)) [
  | inl e ↦ rw e refl
  | inr e ↦ elim (Bool-cases waited) [ inl t ↦ rw (e, t) e | inr t ↦ rw (e, t) refl ]
]

answer-Advances :
    (max attempt : ℕ) (r : Round) (a : Answer Bool)
    → Advances max attempt (r.renewed && is_rejected a) (answer_turn max attempt r a)
answer-Advances max attempt r (answered true) = refl
answer-Advances max attempt r (answered false) = retry-Advances max attempt _ r.waited
answer-Advances max attempt r rejected_token = elim (Bool-cases r.renewed) [
  | inl e ↦ rw e refl
  | inr e ↦ rw e (retry-Advances max attempt _ r.waited)
]
answer-Advances max attempt r failed_call = retry-Advances max attempt _ r.waited

turn-Advances :
    (max attempt : ℕ) (r : Round) → Advances max attempt (is_renewal r) (turn max attempt r)
unfolding turn
turn-Advances max attempt r = elim (Bool-cases r.active) [
  | inl e ↦ rw e (answer-Advances max attempt r r.answer)
  | inr e ↦ rw e refl
]

-- One turn of the loop, with what holds of the rounds after it.
turn_ends :
    (max attempt : ℕ) (renewal : Bool) (t : Turn) (same following : SubmitEnd)
    → Advances max attempt renewal t
    → (renewal ≡ true → runs_on same ≡ false)
    → ((attempt == max) ≡ false → runs_on following ≡ false)
    → runs_on (elim t [ ends e ↦ e | again ↦ same | next ↦ following ]) ≡ false
turn_ends max attempt renewal (ends e) same following a hs hf = a
turn_ends max attempt renewal again same following a hs hf = hs a
turn_ends max attempt renewal next same following a hs hf = hf a

-- The loop of sendResult is over once it met as many rounds as attempts were left, not counting the
-- rounds in which a rejected token was renewed.
pub send_loop-ends :
    (max attempt : ℕ) (rounds : List Round)
    → max < attempt + count_if (λ r. not (is_renewal r)) rounds
    → runs_on (send_loop max attempt rounds) ≡ false
unfolding send_loop
send_loop-ends max attempt [] h = ground arith
send_loop-ends max attempt (r ∷ rounds) h = elim (Bool-cases (leb attempt max)) [
  | inr e ↦ rw e refl
  | inl e ↦ rw e (
      turn_ends max attempt (is_renewal r) (turn max attempt r) (send_loop max attempt rounds)
        (send_loop max (suc attempt) rounds) (turn-Advances max attempt r)
        (λ t. send_loop-ends max attempt rounds (ground arith))
        (λ t. send_loop-ends max (suc attempt) rounds (ground arith)))
]

answer_again :
    (max attempt : ℕ) (r : Round) (a : Answer Bool)
    → (r.renewed && is_rejected a) ≡ true
    → answer_turn max attempt r a ≡ again
answer_again max attempt r (answered c) h = absurd (ground arith)
answer_again max attempt r rejected_token h = ground arith
answer_again max attempt r failed_call h = absurd (ground arith)

renewal_again :
    (max attempt : ℕ) (r : Round) → (r.active && is_renewal r) ≡ true → turn max attempt r ≡ again
unfolding turn
renewal_again max attempt r h =
    let here : r.active ≡ true = ground arith in
    rw here (answer_again max attempt r r.answer (ground arith))

-- As long as the job is active and each round ends in a rejected token that is renewed, the loop runs
-- on, however many attempts it is given and however many such rounds there are.
pub renewals_run_on :
    (max attempt : ℕ) (rounds : List Round)
    → attempt ≤ max
    → All (λ r. (r.active && is_renewal r) ≡ true) rounds
    → send_loop max attempt rounds ≡ still_running
unfolding send_loop
renewals_run_on max attempt [] h a = ground arith
renewals_run_on max attempt (r ∷ rounds) h a =
    let open_round : leb attempt max ≡ true = ground arith in
    rw (open_round, renewal_again max attempt r a.0, send_loop)
      (renewals_run_on max attempt rounds h a.1)

is_job_active-complete_job :
    (other run_id : String) (w : Worker)
    → is_job_active other (complete_job run_id w)
      ≡ (if other == run_id then false else is_job_active other w)
unfolding is_job_active complete_job
is_job_active-complete_job other run_id w = any_others w.active_jobs
  where
    any_others :
        (runs : List String)
        → any (λ r. r == other) (filter (λ r. not (r == run_id)) runs)
          ≡ (if other == run_id then false else any (λ r. r == other) runs)
    any_others [] = ground arith
    any_others (r ∷ runs) =
        ground
          (arith, str_eq_iff r other, str_eq_iff r run_id, str_eq_iff other run_id, any_others runs)

abbrev pub is_released : SubmitEnd → Bool
is_released submitted = true
is_released gave_up = true
is_released _ = false

-- When the loop ends by a committed result or by the last attempt, the job's slot is free and every
-- other job is as active as it was; an early return changes no slot.
pub send_result-releases :
    (other run_id : String) (rounds : List Round) (w : Worker)
    → let (end, w') = send_result run_id rounds w in
      is_job_active other w'
      ≡ (if is_released end && other == run_id then false else is_job_active other w)
unfolding send_result
send_result-releases other run_id rounds w = go (send_loop w.result_submit_max_attempts 1 rounds)
  where
    go :
        (end : SubmitEnd)
        → is_job_active other (release run_id end w)
          ≡ (if is_released end && other == run_id then false else is_job_active other w)
    go submitted = is_job_active-complete_job other run_id w
    go gave_up = is_job_active-complete_job other run_id w
    go left = refl
    go still_running = refl
