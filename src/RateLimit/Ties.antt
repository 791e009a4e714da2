-- ===== src/RateLimit/Ties.antt =====
-- Requests with one timestamp (backend/app/core/ratelimit.py): the member of the sorted set is the
-- text of the time, so they are one member.
use terrible_naming_conventi.Base.{
  ℕ, zero, suc, ◌≤◌, ◌≡◌, refl, ◌∙◌, ap, ◌⊎◌, inl, inr, false, [], ◌∷◌, filter, length, leb, arith,
}
use terrible_naming_conventi.Models.{Text}
use terrible_naming_conventi.RateLimit.{
  zadd, is_live, Redis, allowed, is_allowed, after_prune, time_to_live,
}
use terrible_naming_conventi.RateLimit.Trace.{IsUp}

module _ {W : Type 0} (redis : Redis W) (second limit window : ℕ) (key : Text)
    (up : IsUp redis) where
  -- At most the time itself is remembered.
  abbrev HasOnly : ℕ → W → Type 0
  HasOnly now w = (redis.scores key w ≡ []) ⊎ (redis.scores key w ≡ now ∷ [])

  -- the same request n times
  abbrev pub repeat : ℕ → ℕ → W → W
  repeat zero now w = w
  repeat (suc n) now w = (is_allowed redis second limit window key now (repeat n now w)).1

  only_filter :
      (now : ℕ) (w : W)
      → HasOnly now w
      → (length (filter (is_live window now) (redis.scores key w)) ≤ 1)
        × (zadd now (filter (is_live window now) (redis.scores key w)) ≡ now ∷ [])
  only_filter now w (inl e) = rw e (omega arith, refl)
  only_filter now w (inr e) = rw e (ground arith, ground arith)

  allowed_again :
      (now : ℕ) (w : W)
      → 2 ≤ limit
      → HasOnly now w
      → ((is_allowed redis second limit window key now w).0 ≡ allowed)
        × HasOnly now (is_allowed redis second limit window key now w).1
  unfolding is_allowed after_prune
  allowed_again now w room only =
      let (n, returned) = up.prunes key now window w in
      let v = (redis.prune key now window w).1 in
      let held = redis.prune-scores key now window w returned in
      let counted : n ≡ length (filter (is_live window now) (redis.scores key w)) =
        redis.prune-count key now window w returned ∙ ap length held in
      let free : leb limit n ≡ false = ground (arith, (only_filter now w only).0) in
      let ttl = time_to_live redis second limit window in
      rw (returned, free)
        (
          refl,
          inr (
              redis.add-scores key now ttl v (up.adds key now ttl v)
              ∙ ap (zadd now) held
              ∙ (only_filter now w only).1),
        )

  repeat-HasOnly :
      (n now : ℕ) (w : W) → 2 ≤ limit → redis.scores key w ≡ [] → HasOnly now (repeat n now w)
  repeat-HasOnly zero now w room e = inl e
  repeat-HasOnly (suc n) now w room e =
      (allowed_again now (repeat n now w) room (repeat-HasOnly n now w room e)).1

  -- With a limit of two or more and no request remembered, any number of requests with one and the
  -- same timestamp are allowed, while Redis answers.
  pub ties_allowed :
      (n now : ℕ) (w : W)
      → 2 ≤ limit
      → redis.scores key w ≡ []
      → (is_allowed redis second limit window key now (repeat n now w)).0 ≡ allowed
  ties_allowed n now w room e =
      (allowed_again now (repeat n now w) room (repeat-HasOnly n now w room e)).0
