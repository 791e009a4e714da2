-- ===== src/Tests/Limits.antt =====
-- The rate limiter with two requests in ten ticks, two ticks to a second.
use terrible_naming_conventi.Base.{ℕ, ◌≡◌, ◌≤◌, refl, List, [], ◌∷◌, count, arith, codes}
use terrible_naming_conventi.Models.{Text}
use terrible_naming_conventi.Samples.Redis.{redis, redis-IsUp}
use terrible_naming_conventi.RateLimit.{
  Verdict, allowed, refused, is_allowed, after_prune, retry_after,
}
use terrible_naming_conventi.RateLimit.Trace.{Reach, start, request}
use terrible_naming_conventi.RateLimit.Window.{is_in, Reach-bounded}
use terrible_naming_conventi.RateLimit.Retry.{refused-then-allowed}
use terrible_naming_conventi.RateLimit.Ties.{repeat, ties_allowed}

abbrev key : Text
key = codes "rl:query:1"

abbrev step : ℕ → List ℕ → Verdict × List ℕ
step now w = is_allowed redis 2 2 10 key now w

-- Requests at 1 and 4 are allowed, and those at 5 and 11 are a refusal and an allowance.
two_times : Reach redis 2 2 10 key (1 ∷ 4 ∷ []) 4 (1 ∷ 4 ∷ [])
unfolding is_allowed after_prune retry_after
two_times = request (request (start [] 0 refl) 1 (omega arith)) 4 (omega arith)

three_times : Reach redis 2 2 10 key (1 ∷ 4 ∷ 11 ∷ []) 11 (4 ∷ 11 ∷ [])
unfolding is_allowed after_prune retry_after
three_times = request (request two_times 5 (omega arith)) 11 (omega arith)

Reach-bounded_example : count (is_in 10 11) (1 ∷ 4 ∷ 11 ∷ []) ≤ 2
Reach-bounded_example = Reach-bounded redis 2 2 10 key redis-IsUp (omega arith) three_times 11

refusal : step 5 (1 ∷ 4 ∷ []) ≡ (refused 3, 1 ∷ 4 ∷ [])
unfolding is_allowed after_prune retry_after
refusal = refl

refused-then-allowed_example : (step 11 (1 ∷ 4 ∷ [])).0 ≡ allowed
refused-then-allowed_example =
    refused-then-allowed redis 2 2 10 key redis-IsUp (omega arith) (omega arith) (omega arith)
      two_times 5 11 (omega arith) refusal (omega arith)

ties_allowed_example :
    (is_allowed redis 2 2 10 key 7 (repeat redis 2 2 10 key redis-IsUp 100 7 [])).0 ≡ allowed
ties_allowed_example = ties_allowed redis 2 2 10 key redis-IsUp 100 7 [] (omega arith) refl
