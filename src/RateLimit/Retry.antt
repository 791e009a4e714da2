-- ===== src/RateLimit/Retry.antt =====
-- A refused request may come again after the time that the rate limiter names
-- (backend/app/core/ratelimit.py), and requests with one timestamp count once.
use terrible_naming_conventi.Base.{
  ℕ, ◌+◌, ◌-◌, ◌*◌, ◌≤◌, ◌<◌, ◌≡◌, refl, sym, ◌∙◌, ap, subst, some, false, Bool-cases, inl, inr,
  List, [], ◌∷◌, All, All-map, filter, length, count, length-filter, count-le-length, head?, leb,
  arith,
}
use native.Mathlib.Nat.{div-add-mod, mod-lt}
use terrible_naming_conventi.Models.{Text}
use terrible_naming_conventi.RateLimit.{
  is_live, Redis, Verdict, allowed, refused, is_allowed, after_prune, retry_after, retry_seconds,
}
use terrible_naming_conventi.RateLimit.Trace.{IsUp, Reach}
use terrible_naming_conventi.RateLimit.Window.{is_in, Inv, Reach-Inv, pruned_lem}

refused-injective : {m n : ℕ} → refused m ≡ refused n → m ≡ n
refused-injective h = cc

live_in :
    (window now : ℕ) (ss : List ℕ)
    → All (λ s. s ≤ now) ss
    → count (is_live window now) ss ≤ count (is_in window now) ss
live_in window now [] h = omega arith
live_in window now (s ∷ ss) h = ground (arith, live_in window now ss h.1)

-- The seconds are enough for the oldest score to leave the window.
retry_enough :
    (second window now oldest : ℕ)
    → 0 < second
    → oldest + window ≤ now + second * retry_seconds second window now (some oldest)
retry_enough second window now oldest h =
    let x = oldest + window - now + (second - 1) in omega (arith, div-add-mod x second, mod-lt x h)

-- After the oldest score has left, fewer are live.
fewer_live :
    (window second now later limit : ℕ) (held : List ℕ)
    → 0 < second
    → 0 < limit
    → limit ≤ length held
    → length held ≤ limit
    → now + second * retry_seconds second window now (head? held) ≤ later
    → length (filter (is_live window later) held) < limit
fewer_live window second now later limit [] s l full bound h = absurd (omega arith)
fewer_live window second now later limit (o ∷ rest) s l full bound h =
    let gone : is_live window later o ≡ false =
      ground (arith, retry_enough second window now o s) in
    ground (
      arith,
      gone,
      length-filter (is_live window later) (o ∷ rest),
      count-le-length (is_live window later) rest,
    )

module _ {W : Type 0} (redis : Redis W) (second limit window : ℕ) (key : Text) (up : IsUp redis)
    (live_for : 0 < window) where
  -- a request that finds a place is allowed
  free_allowed :
      (later : ℕ) (w : W)
      → length (filter (is_live window later) (redis.scores key w)) < limit
      → (is_allowed redis second limit window key later w).0 ≡ allowed
  unfolding is_allowed after_prune
  free_allowed later w free =
      let (n, returned) = up.prunes key later window w in
      let counted : n ≡ length (filter (is_live window later) (redis.scores key w)) =
        redis.prune-count key later window w returned
        ∙ ap length (redis.prune-scores key later window w returned) in
      let room : leb limit n ≡ false = ground arith in rw (returned, room) refl

  -- what a refusal has seen and leaves
  record IsRefusal (past : List ℕ) (now seconds : ℕ) (w' : W) : Type 0 where
    held : redis.scores key w' ≡ filter (is_live window now) past
    full : limit ≤ length (filter (is_live window now) past)
    named : seconds ≡ retry_seconds second window now (head? (filter (is_live window now) past))

  refusal_lem :
      (past : List ℕ) (before now seconds : ℕ) (w w' : W)
      → Inv redis second limit window key past before w
      → before < now
      → is_allowed redis second limit window key now w ≡ (refused seconds, w')
      → IsRefusal past now seconds w'
  unfolding is_allowed after_prune retry_after
  refusal_lem past before now seconds w w' inv later h =
      let (n, returned) = up.prunes key now window w in
      let v = (redis.prune key now window w).1 in
      let held = pruned_lem redis second limit window key up live_for past before now w inv later in
      let counted : n ≡ length (filter (is_live window now) past) =
        redis.prune-count key now window w returned ∙ ap length held in
      let (o, read) = up.reads key v in
      elim (Bool-cases (leb limit n)) [
        | inl full ↦
            let enough : limit ≤ length (filter (is_live window now) past) = ground arith in
            let said : (refused (retry_seconds second window now o), (redis.oldest key v).1)
                ≡ (refused seconds, w') =
              rw (returned, full, read) at h in
            let world : (redis.oldest key v).1 ≡ w' = ap (λ (d : Verdict × W). d.1) said in
            let waits : refused (retry_seconds second window now o) ≡ refused seconds =
              ap (λ (d : Verdict × W). d.0) said in
            record {
              held = ap (redis.scores key) (sym world) ∙ redis.oldest-keeps key v ∙ held;
              full = enough;
              named =
                  sym (refused-injective waits)
                  ∙ ap (retry_seconds second window now)
                      (redis.oldest-scores key v read ∙ ap head? held);
            }
        | inr free ↦ absurd (cc (rw (returned, free) at h))
      ]

  -- A request that is refused while Redis answers may be repeated: if no other request comes in
  -- between, it is allowed at any time that is later by at least the seconds that were named.
  pub refused-then-allowed :
      {past : List ℕ} {before : ℕ} {w w' : W} {seconds : ℕ}
      → 0 < second
      → 0 < limit
      → Reach redis second limit window key past before w
      → (now later : ℕ) → before < now
      → is_allowed redis second limit window key now w ≡ (refused seconds, w')
      → now + second * seconds ≤ later
      → (is_allowed redis second limit window key later w').0 ≡ allowed
  refused-then-allowed {past} {before} {w} {w'} {seconds} s l r now later order h waited =
      let inv = Reach-Inv redis second limit window key up live_for r in
      let refusal = refusal_lem past before now seconds w w' inv order h in
      let held = filter (is_live window now) past in
      let early = All-map (λ x. x ≤ before) (λ x. x ≤ now) past (λ x e. omega arith) inv.old in
      let bound : length held ≤ limit = omega (
        arith,
        length-filter (is_live window now) past,
        live_in window now past early,
        inv.bounded now,
      ) in
      let wait : now + second * retry_seconds second window now (head? held) ≤ later =
        subst (λ x. now + second * x ≤ later) refusal.named waited in
      free_allowed later w' (
        subst (λ x. length (filter (is_live window later) x) < limit) (sym refusal.held)
          (fewer_live window second now later limit held s l refusal.full bound wait))
