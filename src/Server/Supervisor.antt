-- ===== src/Server/Supervisor.antt =====
-- src/server.rs: `run_supervised`.
use ironbind.Prelude.{
  ℕ, suc, ◌*◌, ◌^◌, ◌≡◌, refl, ap, min, List, [], ◌∷◌, arith, ltb, if◌then◌else◌, Bool-cases, inl,
  inr,
}

abbrev pub second : ℕ
second = 10 ^ 9

abbrev reset_delay : ℕ → ℕ → ℕ
reset_delay up delay = if ltb (60 * second) up then second else delay

-- How long the supervisor sleeps after each run of its job, from how long the runs lasted, in
-- nanoseconds. A run that panics is treated as one that returns.
unfoldable sleeps_from : ℕ → List ℕ → List ℕ
sleeps_from delay [] = []
sleeps_from delay (up ∷ ups) =
    let slept = reset_delay up delay in slept ∷ sleeps_from (min (slept * 2) (30 * second)) ups

unfoldable pub run_supervised : List ℕ → List ℕ
unfolding sleeps_from
run_supervised ups = sleeps_from second ups

-- The backoff in closed form: `quick` runs lie between this one and the last that started the count.
abbrev backoff : ℕ → ℕ
backoff quick = min (2 ^ quick) 30 * second

abbrev pub backoffs : ℕ → List ℕ → List ℕ
backoffs quick [] = []
backoffs quick (up ∷ ups) =
    let here = if ltb (60 * second) up then 0 else quick in backoff here ∷ backoffs (suc here) ups

backoff-suc : (quick : ℕ) → min (backoff quick * 2) (30 * second) ≡ backoff (suc quick)
backoff-suc quick =
    let double : 2 ^ suc quick ≡ 2 * 2 ^ quick = omega arith in omega (arith, double)

sleeps_from-backoffs :
    (quick : ℕ) (ups : List ℕ) → sleeps_from (backoff quick) ups ≡ backoffs quick ups
unfolding sleeps_from
sleeps_from-backoffs quick [] = refl
sleeps_from-backoffs quick (up ∷ ups) = elim (Bool-cases (ltb (60 * second) up)) [
  | inl long ↦ rw long (ap (λ ds. second ∷ ds) (sleeps_from-backoffs 1 ups))
  | inr short ↦
      rw (short, backoff-suc quick)
        (ap (λ ds. backoff quick ∷ ds) (sleeps_from-backoffs (suc quick) ups))
]

-- After each run the supervisor sleeps 2 ^ k seconds, and at most 30, where k is 0 after the first run
-- and after each run of more than a minute, and after any other run one more than after the run before.
pub run_supervised-backoffs : (ups : List ℕ) → run_supervised ups ≡ backoffs 0 ups
unfolding run_supervised
run_supervised-backoffs ups = sleeps_from-backoffs 0 ups
