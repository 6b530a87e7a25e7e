-- ===== src/RateLimit/Tests.antt =====
-- Runs of the rate limiter over whole seconds, and its theorems at concrete inputs.
use newchanges.Base.{ℕ, ◌-◌, ◌≡◌, refl, false, List, [], some, String, arith}
use newchanges.Base.Audit.{Trail}
use newchanges.Base.Float.{◌≼◌}
use newchanges.Base.Sample.{nat_float, ℕ-IsOrdered}
use newchanges.RateLimit.{RateLimitPolicy, Hits, check, drop_expired, hits_of, set_hits}
use newchanges.RateLimit.Window.{Served, started, served, admit, recent}
use newchanges.RateLimit.History.{decision_on, check-decides}

abbrev two_per_minute : RateLimitPolicy ℕ
two_per_minute = record { max_requests = 2; window_seconds = 60 }

abbrev one_per_minute : RateLimitPolicy ℕ
one_per_minute = record { max_requests = 1; window_seconds = 60 }

abbrev after_one : Hits ℕ × Trail
after_one = (check 100 "acme:ann:/ask" two_per_minute ([], [])).1

abbrev one_call : String → List ℕ
one_call = admit "acme:ann:/ask" 100 (check 100 "acme:ann:/ask" two_per_minute ([], [])).0 (λ k. [])

run_one : Served (λ k. 60) (λ k. 2) 100 after_one one_call
run_one = served 100 "acme:ann:/ask" two_per_minute (started 90 []) refl refl (omega arith)

third_call :
    (check 120 "acme:ann:/ask" two_per_minute
      (check 110 "acme:ann:/ask" two_per_minute after_one).1).0
    ≡ some (record { allowed = false; remaining = 0; retry_after_seconds = some 40 })
unfolding check drop_expired hits_of set_hits
third_call = refl

sub_mono : (a b c : ℕ) → a ≼ b → (a - c) ≼ (b - c)
sub_mono a b c h = ground arith

-- The second call is checked under a lower maximum.
check-decides_example :
    (check 150 "acme:ann:/ask" one_per_minute after_one).0
    ≡ decision_on 150 one_per_minute (recent 150 60 (one_call "acme:ann:/ask"))
check-decides_example =
    check-decides (λ k. 60) (λ k. 2) ℕ-IsOrdered sub_mono run_one 150 "acme:ann:/ask" refl
      one_per_minute refl
