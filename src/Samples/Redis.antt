-- ===== src/Samples/Redis.antt =====
-- A Redis with one sorted set, which is the world.
use terrible_naming_conventi.Base.{ℕ, refl, sym, List, filter, length, head?}
use terrible_naming_conventi.Errors.{ok, ok-injective}
use terrible_naming_conventi.RateLimit.{Redis, is_live, zadd}
use terrible_naming_conventi.RateLimit.Trace.{IsUp}

abbrev pub redis : Redis (List ℕ)
redis = record {
  prune = λ key now window w.
      (ok (length (filter (is_live window now) w)), filter (is_live window now) w);
  add = λ key now ttl w. (ok tt, zadd now w);
  oldest = λ key w. (ok (head? w), w);
  scores = λ key w. w;
  prune-scores = λ key now window w e. refl;
  prune-count = λ key now window w e. sym (ok-injective e);
  add-scores = λ key now ttl w e. refl;
  oldest-scores = λ key w e. sym (ok-injective e);
  oldest-keeps = λ key w. refl;
}

pub redis-IsUp : IsUp redis
redis-IsUp = record {
  prunes = λ key now window w. (length (filter (is_live window now) w), refl);
  adds = λ key now ttl w. refl;
  reads = λ key w. (head? w, refl);
}
