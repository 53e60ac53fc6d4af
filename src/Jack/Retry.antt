-- ===== src/Jack/Retry.antt =====
-- Opening a client of JACK until it succeeds: `ClientOpenRetryPolicy` and `createDefault` of
-- src/include/speakerman/jack/JackClient.hpp. The product of a time in milliseconds with the floating-point
-- exponent is an argument.
use speakerman.Prelude.{
  ℕ, ◌+◌, ◌*◌, ◌/◌, ◌%◌, ◌≤◌, Bool, true, false, Option, none, some, List, [], ◌∷◌, if◌then◌else◌,
  leb, ◌==◌, min, arith,
}

abbrev pub min_wait_millis : ℕ
min_wait_millis = 100

abbrev pub max_wait_millis : ℕ
max_wait_millis = 2000

abbrev pub max_print_interval : ℕ
max_print_interval = 3600000 / max_wait_millis

-- `ClientOpenRetryPolicy`; `waited` is the sum of the times that it slept.
pub record ClientOpenRetryPolicy : Type 0 where
  pub attempt : ℕ
  pub wait_millis : ℕ
  pub print_interval : ℕ
  pub waited : ℕ

abbrev pub new_policy : ClientOpenRetryPolicy
new_policy = record { attempt = 0; wait_millis = min_wait_millis; print_interval = 8; waited = 0 }

-- `must_print`
unfoldable pub must_print : ClientOpenRetryPolicy → Bool
must_print p = p.attempt % p.print_interval == 0

module _ (scaled : ℕ → ℕ) where
  -- `printFailureAndWait`, less the message
  unfoldable pub print_failure_and_wait : ClientOpenRetryPolicy → ClientOpenRetryPolicy
  unfolding must_print
  print_failure_and_wait p = record {
    attempt = p.attempt + 1;
    wait_millis = min (scaled p.wait_millis) max_wait_millis;
    print_interval =
        if must_print p
        then (if leb max_wait_millis p.wait_millis
            then min (p.print_interval * 2) max_print_interval
            else p.print_interval)
        else p.print_interval;
    waited = p.waited + p.wait_millis;
  }

  -- The loop of `createDefault`: each round has the answer of `check_raised`, and the client that
  -- `jack_client_open` gives. The result is the client, if the loop ends, and the policy.
  unfoldable pub create_default :
      List (Bool × Option ℕ) → ClientOpenRetryPolicy → Option (Option ℕ) × ClientOpenRetryPolicy
  unfolding print_failure_and_wait
  create_default [] p = (none, p)
  create_default ((true, opened) ∷ rest) p = (some none, p)
  create_default ((false, some c) ∷ rest) p = (some (some c), p)
  create_default ((false, none) ∷ rest) p = create_default rest (print_failure_and_wait p)

  -- The waits and the interval of messages have their limits, and a failure is counted.
  pub record IsBounded (p : ClientOpenRetryPolicy) : Type 0 where
    pub wait_limit : p.wait_millis ≤ max_wait_millis
    pub interval_limit : p.print_interval ≤ max_print_interval
    pub some_interval : 8 ≤ p.print_interval
    pub waited_limit : p.waited ≤ max_wait_millis * p.attempt

  print_failure_and_wait-IsBounded :
      (p : ClientOpenRetryPolicy) → IsBounded p → IsBounded (print_failure_and_wait p)
  unfolding print_failure_and_wait
  print_failure_and_wait-IsBounded p b = ground arith

  -- Whatever the attempts give, there are at most two seconds between them, and messages at least at
  -- each 1800th of them; their number is never divided by zero.
  pub create_default-IsBounded :
      (rounds : List (Bool × Option ℕ)) (p : ClientOpenRetryPolicy)
      → IsBounded p
      → IsBounded (create_default rounds p).1
  unfolding create_default
  create_default-IsBounded [] p b = b
  create_default-IsBounded ((true, opened) ∷ rest) p b = b
  create_default-IsBounded ((false, some c) ∷ rest) p b = b
  create_default-IsBounded ((false, none) ∷ rest) p b =
      create_default-IsBounded rest (print_failure_and_wait p)
        (print_failure_and_wait-IsBounded p b)
