-- ===== src/RateLimit.antt =====
-- app/core/rate_limit.py. The time that a check reads is its argument; the counters are an
-- association list, in which a missing key reads as the empty deque of the `defaultdict`.
pub mod Chain
pub mod Window
pub mod History
pub mod Answers
mod Tests
use newchanges.Base.{
  ℕ, ◌-◌, ◌+◌, leb, Bool, true, false, if◌then◌else◌, Option, none, some, String, str_eq, List, [],
  ◌∷◌, ◌++◌, length,
}
use newchanges.Base.Float.{Float, max}
use newchanges.Base.Audit.{Trail, Event, rate_limit_exceeded}

pub record RateLimitPolicy {ℓ} (F : Type ℓ) : Type ℓ where
  pub max_requests : ℕ
  pub window_seconds : F

pub record RateLimitDecision {ℓ} (F : Type ℓ) : Type ℓ where
  pub allowed : Bool
  pub remaining : ℕ
  pub retry_after_seconds : Option F

-- `_hits`, each deque with its oldest hit first
abbrev pub Hits {ℓ} : Type ℓ → Type ℓ
Hits F = List (String × List F)

module _ {ℓ} {F : Type ℓ} where
  unfoldable pub hits_of : Hits F → String → List F
  hits_of [] key = []
  hits_of ((k, hits) ∷ rest) key =
      let later = hits_of rest key in if str_eq k key then hits else later

  unfoldable pub set_hits : Hits F → String → List F → Hits F
  set_hits [] key hits = (key, hits) ∷ []
  set_hits ((k, old) ∷ rest) key hits =
      let later = set_hits rest key hits in
      if str_eq k key then (k, hits) ∷ rest else (k, old) ∷ later

  unfoldable pub pop_hits : Hits F → String → Hits F
  pop_hits [] key = []
  pop_hits ((k, old) ∷ rest) key =
      let later = pop_hits rest key in if str_eq k key then later else (k, old) ∷ later

  -- `reset`
  unfoldable pub reset : Option String → Hits F → Hits F
  unfolding pop_hits
  reset none store = []
  reset (some key) store = pop_hits store key

  -- `NullRateLimiter.check`
  unfoldable pub null_check : RateLimitPolicy F → RateLimitDecision F
  null_check p = record { allowed = true; remaining = p.max_requests; retry_after_seconds = none }

module _ {ℓ} {F : Type ℓ} ⦃f : Float F⦄ where
  -- `RateLimitPolicy.__post_init__`; `none` is the `ValueError`
  unfoldable pub make_policy : ℕ → F → Option (RateLimitPolicy F)
  make_policy max_requests window =
      if leb 1 max_requests
      then (if f.le window f.nought
          then none
          else some (record { max_requests = max_requests; window_seconds = window }))
      else none

  -- the loop that drops what has left the window
  unfoldable pub drop_expired : F → List F → List F
  drop_expired cutoff [] = []
  drop_expired cutoff (hit ∷ hits) =
      let rest = drop_expired cutoff hits in if f.le hit cutoff then rest else hit ∷ hits

  -- what a full window answers; `none` is the `IndexError` of `hits[0]`
  abbrev pub refusal : F → RateLimitPolicy F → List F → Option (RateLimitDecision F)
  refusal now p [] = none
  refusal now p (oldest ∷ hits) = some (record {
    allowed = false;
    remaining = 0;
    retry_after_seconds = some (max (f.sub (f.add oldest p.window_seconds) now) f.nought);
  })

  abbrev record_exceeded : List F → Trail → Trail
  record_exceeded [] trail = trail
  record_exceeded (oldest ∷ hits) trail =
      record { name = rate_limit_exceeded; reason = "window_exhausted" } ∷ trail

  -- `check` below its loop, on the hits that are left
  abbrev pub count_hit :
      F
      → String
      → RateLimitPolicy F
      → Hits F × Trail
      → List F
      → Option (RateLimitDecision F) × (Hits F × Trail)
  count_hit now key p (store, trail) hits =
      if leb p.max_requests (length hits)
      then (refusal now p hits, (set_hits store key hits, record_exceeded hits trail))
      else (
        some (record {
          allowed = true;
          remaining = p.max_requests - length (hits ++ now ∷ []);
          retry_after_seconds = none;
        }),
        (set_hits store key (hits ++ now ∷ []), trail),
      )

  -- `InMemoryRateLimiter.check`
  unfoldable pub check :
      F
      → String
      → RateLimitPolicy F
      → Hits F × Trail
      → Option (RateLimitDecision F) × (Hits F × Trail)
  check now key p s =
      count_hit now key p s (drop_expired (f.sub now p.window_seconds) (hits_of s.0 key))
