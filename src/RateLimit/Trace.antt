-- ===== src/RateLimit/Trace.antt =====
-- Requests at one key of the rate limiter (backend/app/core/ratelimit.py), one after another, while
-- Redis answers.
use terrible_naming_conventi.Base.{ℕ, ◌≡◌, ◌<◌, List, [], ◌∷◌, ◌++◌, Option}
use terrible_naming_conventi.Errors.{ok}
use terrible_naming_conventi.Models.{Text}
use terrible_naming_conventi.RateLimit.{Redis, Verdict, allowed, refused, is_allowed}

-- Every call returns.
pub record IsUp {W : Type 0} (redis : Redis W) : Type 0 where
  pub prunes :
      (key : Text) (now window : ℕ) (w : W) → (n : ℕ) × ((redis.prune key now window w).0 ≡ ok n)
  pub adds : (key : Text) (now ttl : ℕ) (w : W) → (redis.add key now ttl w).0 ≡ ok tt
  pub reads : (key : Text) (w : W) → (o : Option ℕ) × ((redis.oldest key w).0 ≡ ok o)

abbrev pub with_decision : Verdict → ℕ → List ℕ → List ℕ
with_decision allowed now times = times ++ now ∷ []
with_decision (refused seconds) now times = times

-- `Reach past now w`: requests at growing times, the last one at `now`, have led to the world `w`,
-- and those at the times `past` were allowed. It starts with no request remembered for the key.
pub data Reach {W : Type 0} (redis : Redis W) (second limit window : ℕ) (key : Text)
    : List ℕ → ℕ → W → Type 0 where
  start : (w : W) (now : ℕ) → redis.scores key w ≡ [] → Reach redis second limit window key [] now w
  request :
      {past : List ℕ} {before : ℕ} {w : W}
      → Reach redis second limit window key past before w
      → (now : ℕ) → before < now
      → Reach redis second limit window key
          (with_decision (is_allowed redis second limit window key now w).0 now past)
          now
          (is_allowed redis second limit window key now w).1
