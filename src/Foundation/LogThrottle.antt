-- ===== src/Foundation/LogThrottle.antt =====
-- components/foundation/util/log_throttle.cpp: at most one log line an interval, with a count of the lines left out.
--
-- Times are counts of the steady clock, which does not run backwards; the caller asks for the count.
mod Tests
use server_components.Common.{
  ℕ, zero, suc, ◌+◌, ◌-◌, ◌≡◌, refl, ◌∙◌, ap, Bool, true, false, Option, none, some, List, [], ◌∷◌,
  arith, if◌then◌else◌, ltb, length, inl, inr, Bool-cases,
}

pub record LogThrottle : Type 0 where
  pub last_logged : Option ℕ
  pub suppressed : ℕ

unfoldable pub new_throttle : LogThrottle
new_throttle = record { last_logged = none; suppressed = 0 }

-- `lastLogged_.has_value() && now - *lastLogged_ < interval_`
unfoldable pub is_held_back : ℕ → ℕ → Option ℕ → Bool
is_held_back interval now none = false
is_held_back interval now (some last) = ltb (now - last) interval

-- Whether to log, the count that the caller is told then, and the throttle afterwards.
unfoldable pub should_log : ℕ → ℕ → LogThrottle → Bool × ℕ × LogThrottle
should_log interval now throttle =
    if is_held_back interval now throttle.last_logged
    then (
      false,
      0,
      record { last_logged = throttle.last_logged; suppressed = suc throttle.suppressed },
    )
    else (true, throttle.suppressed, record { last_logged = some now; suppressed = 0 })

-- How many of the calls at these times log, how many suppressed lines they report in all, and the throttle afterwards.
pub run_calls : ℕ → List ℕ → LogThrottle → ℕ × ℕ × LogThrottle
run_calls interval [] throttle = (0, 0, throttle)
run_calls interval (now ∷ times) throttle =
    let (logs, told, after) = should_log interval now throttle in
    let (logged, reported, final) = run_calls interval times after in
    ((if logs then suc logged else logged), told + reported, final)

-- No line is lost from the count: the lines that are logged, the suppressed ones that were reported and those still to be
-- reported are together as many as the calls, with those that were pending before.
pub run_calls-accounts :
    (interval : ℕ) (times : List ℕ) (throttle : LogThrottle)
    → let (logged, reported, final) = run_calls interval times throttle in
      logged + reported + final.suppressed ≡ length times + throttle.suppressed
unfolding run_calls should_log
run_calls-accounts interval [] throttle = omega arith
run_calls-accounts interval (now ∷ times) throttle =
    elim (Bool-cases (is_held_back interval now throttle.last_logged)) [
      | inl held ↦
          let rest =
            run_calls-accounts interval times (record {
              last_logged = throttle.last_logged;
              suppressed = suc throttle.suppressed;
            }) in
          rw held (omega (arith, rest))
      | inr free ↦
          let rest =
            run_calls-accounts interval times (record { last_logged = some now; suppressed = 0 }) in
          rw free (omega (arith, rest))
    ]
