-- ===== src/RateLimit.antt =====
-- The sliding-window rate limiter: backend/app/core/ratelimit.py. Times are in ticks, `second` of
-- them to a second, and the window is in ticks. Redis is the parameter `Redis`: its three calls, the
-- scores that a sorted set holds, and what Redis documents of them. A key that expires after its
-- time to live holds no score that the next removal would keep, so expiry is left out.
pub mod Trace
pub mod Window
pub mod Retry
pub mod Ties
use terrible_naming_conventi.Base.{
  ℕ, ◌+◌, ◌-◌, ◌*◌, ◌/◌, ◌≡◌, Option, none, some, Bool, true, false, List, [], ◌∷◌, filter, length,
  head?, ltb, leb, ◌==◌, if◌then◌else◌,
}
use terrible_naming_conventi.Errors.{Result, ok, err}
use terrible_naming_conventi.Act.{Act}
use terrible_naming_conventi.Models.{Text}

-- ZADD of a member that is the text of its score: the scores stay in order, each once.
abbrev pub zadd : ℕ → List ℕ → List ℕ
zadd now [] = now ∷ []
zadd now (s ∷ ss) = if now == s then s ∷ ss else if ltb now s then now ∷ s ∷ ss else s ∷ zadd now ss

-- The score is not removed by ZREMRANGEBYSCORE from -inf to `now - window`.
abbrev pub is_live : ℕ → ℕ → ℕ → Bool
is_live window now s = ltb now (s + window)

-- `prune` is the first pipeline, `add` the second, `oldest` the first score of ZRANGE 0 0. The scores
-- of a key are as the laws say where a call returns.
pub record Redis (W : Type 0) : Type 0 where
  pub prune : Text → ℕ → ℕ → Act W ℕ
  pub add : Text → ℕ → ℕ → Act W (Unit {0})
  pub oldest : Text → Act W (Option ℕ)
  pub scores : Text → W → List ℕ
  pub prune-scores :
      (key : Text) (now window : ℕ) (w : W) {n : ℕ}
      → (prune key now window w).0 ≡ ok n
      → scores key (prune key now window w).1 ≡ filter (is_live window now) (scores key w)
  pub prune-count :
      (key : Text) (now window : ℕ) (w : W) {n : ℕ}
      → (prune key now window w).0 ≡ ok n
      → n ≡ length (scores key (prune key now window w).1)
  pub add-scores :
      (key : Text) (now ttl : ℕ) (w : W) {u : Unit {0}}
      → (add key now ttl w).0 ≡ ok u
      → scores key (add key now ttl w).1 ≡ zadd now (scores key w)
  pub oldest-scores :
      (key : Text) (w : W) {o : Option ℕ} → (oldest key w).0 ≡ ok o → o ≡ head? (scores key w)
  pub oldest-keeps : (key : Text) (w : W) → scores key (oldest key w).1 ≡ scores key w

-- `max(0.0, math.ceil((oldest_score + self.window_seconds) - now))`, in seconds
abbrev pub retry_seconds : ℕ → ℕ → ℕ → Option ℕ → ℕ
retry_seconds second window now none = 0
retry_seconds second window now (some oldest) = (oldest + window - now + (second - 1)) / second

-- allowed, or refused with the seconds to wait
pub data Verdict : Type 0 where
  allowed : Verdict
  refused : ℕ → Verdict

module _ {W : Type 0} (redis : Redis W) (second limit window : ℕ) where
  abbrev pub after_oldest : ℕ → Result (Option ℕ) × W → ℕ × W
  after_oldest now (err e, w) = (0, w)
  after_oldest now (ok oldest, w) = (retry_seconds second window now oldest, w)

  unfoldable pub retry_after : Text → ℕ → W → ℕ × W
  retry_after key now w = after_oldest now (redis.oldest key w)

  -- the time to live in milliseconds
  abbrev pub time_to_live : ℕ
  time_to_live = window * 1000 / second

  -- after the first pipeline; one that fails allows the request
  unfoldable pub after_prune : Text → ℕ → Result ℕ × W → Verdict × W
  unfolding retry_after
  after_prune key now (err e, w) = (allowed, w)
  after_prune key now (ok count, w) =
      if leb limit count
      then (let (seconds, w') = retry_after key now w in (refused seconds, w'))
      else (allowed, (redis.add key now time_to_live w).1)

  unfoldable pub is_allowed : Text → ℕ → W → Verdict × W
  unfolding after_prune
  is_allowed key now w = after_prune key now (redis.prune key now window w)
