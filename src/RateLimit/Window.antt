-- ===== src/RateLimit/Window.antt =====
-- The limit of the rate limiter (backend/app/core/ratelimit.py) holds in every window of time.
use terrible_naming_conventi.Base.{
  ℕ, ◌+◌, ◌≤◌, ◌<◌, ◌≡◌, refl, sym, ◌∙◌, ap, Bool, true, Bool-cases, inl, inr, ◌&&◌, List, [], ◌∷◌,
  ◌++◌, All, All-append, All-map, filter, filter-append, length, count, count-append, length-filter,
  count_mono, leb, ltb, arith,
}
use terrible_naming_conventi.Models.{Text}
use terrible_naming_conventi.RateLimit.{
  zadd, is_live, Redis, Verdict, is_allowed, after_prune, retry_after, time_to_live,
}
use terrible_naming_conventi.RateLimit.Trace.{IsUp, with_decision, Reach, start, request}

zadd-last : (now : ℕ) (ss : List ℕ) → All (λ s. s < now) ss → zadd now ss ≡ ss ++ now ∷ []
zadd-last now [] h = refl
zadd-last now (s ∷ ss) h = ground (arith, zadd-last now ss h.1)

-- A later prune keeps of the scores what an earlier one would.
filter-is_live :
    (window now later : ℕ) (ss : List ℕ)
    → now ≤ later
    → filter (is_live window later) (filter (is_live window now) ss)
      ≡ filter (is_live window later) ss
filter-is_live window now later [] h = refl
filter-is_live window now later (s ∷ ss) h = ground (arith, filter-is_live window now later ss h)

All-filter_keeps : (P : ℕ → Type 0) (p : ℕ → Bool) (ss : List ℕ) → All P ss → All P (filter p ss)
All-filter_keeps P p [] a = tt
All-filter_keeps P p (s ∷ ss) a = elim (Bool-cases (p s)) [
  | inl t ↦ rw t (a.0, All-filter_keeps P p ss a.1)
  | inr t ↦ rw t (All-filter_keeps P p ss a.1)
]

-- The request at the time lies in the window of time that ends at `t`.
abbrev pub is_in : ℕ → ℕ → ℕ → Bool
is_in window t s = leb s t && ltb t (s + window)

module _ {W : Type 0} (redis : Redis W) (second limit window : ℕ) (key : Text) where
  -- Between two requests the set holds the allowed times that were live at the last one.
  pub record Inv (past : List ℕ) (now : ℕ) (w : W) : Type 0 where
    pub held : redis.scores key w ≡ filter (is_live window now) past
    pub old : All (λ s. s ≤ now) past
    pub bounded : (t : ℕ) → count (is_in window t) past ≤ limit

  allowed_bounded :
      (past : List ℕ) (before now t : ℕ)
      → All (λ s. s ≤ before) past
      → before < now
      → length (filter (is_live window now) past) < limit
      → count (is_in window t) past ≤ limit
      → count (is_in window t) (past ++ now ∷ []) ≤ limit
  allowed_bounded past before now t old later free bounded = elim (Bool-cases (leb now t)) [
    | inl covered ↦
        let fewer = count_mono (is_in window t) (is_live window now) past (λ s h. ground arith) in
        ground (
          arith,
          count-append (is_in window t) past (now ∷ []),
          fewer,
          length-filter (is_live window now) past,
        )
    | inr apart ↦ ground (arith, count-append (is_in window t) past (now ∷ []))
  ]

  module _ (up : IsUp redis) (live_for : 0 < window) where
    pub pruned_lem :
        (past : List ℕ) (before now : ℕ) (w : W)
        → Inv past before w
        → before < now
        → redis.scores key (redis.prune key now window w).1 ≡ filter (is_live window now) past
    pruned_lem past before now w inv later =
        let (n, returned) = up.prunes key now window w in
        redis.prune-scores key now window w returned
        ∙ ap (filter (is_live window now)) inv.held
        ∙ filter-is_live window before now past (omega arith)

    refused_Inv :
        (past : List ℕ) (before now : ℕ) (w : W) (w' : W)
        → Inv past before w
        → before < now
        → redis.scores key w' ≡ filter (is_live window now) past
        → Inv past now w'
    refused_Inv past before now w w' inv later held = record {
      held = held;
      old = All-map (λ s. s ≤ before) (λ s. s ≤ now) past (λ s h. omega arith) inv.old;
      bounded = inv.bounded;
    }

    allowed_Inv :
        (past : List ℕ) (before now : ℕ) (w v : W)
        → Inv past before w
        → before < now
        → redis.scores key v ≡ filter (is_live window now) past
        → length (filter (is_live window now) past) < limit
        → Inv
            (past ++ now ∷ [])
            now
            (redis.add key now (time_to_live redis second limit window) v).1
    allowed_Inv past before now w v inv later held free =
        let ttl = time_to_live redis second limit window in
        let early = All-map (λ s. s ≤ before) (λ s. s < now) past (λ s h. omega arith) inv.old in
        let live : is_live window now now ≡ true = ground arith in
        record {
          held =
              redis.add-scores key now ttl v (up.adds key now ttl v)
              ∙ ap (zadd now) held
              ∙ zadd-last now (filter (is_live window now) past)
                  (All-filter_keeps (λ s. s < now) (is_live window now) past early)
              ∙ sym (
                  filter-append (is_live window now) past (now ∷ [])
                  ∙ ap (λ l. filter (is_live window now) past ++ l) (rw live refl));
          old =
              All-append (λ s. s ≤ now) past (now ∷ [])
                (All-map (λ s. s ≤ before) (λ s. s ≤ now) past (λ s h. omega arith) inv.old)
                (omega arith, tt);
          bounded = λ t. allowed_bounded past before now t inv.old later free (inv.bounded t);
        }

    -- what a decision leaves
    abbrev pub Kept : List ℕ → ℕ → Verdict × W → Type 0
    Kept past now d = Inv (with_decision d.0 now past) now d.1

    decided_lem :
        (past : List ℕ) (before now : ℕ) (w : W)
        → Inv past before w
        → before < now
        → Kept past now (is_allowed redis second limit window key now w)
    unfolding is_allowed after_prune retry_after
    decided_lem past before now w inv later =
        let (n, returned) = up.prunes key now window w in
        let v = (redis.prune key now window w).1 in
        let held = pruned_lem past before now w inv later in
        let counted : n ≡ length (filter (is_live window now) past) =
          redis.prune-count key now window w returned ∙ ap length held in
        let (o, read) = up.reads key v in
        elim (Bool-cases (leb limit n)) [
          | inl full ↦
              rw (returned, full, read)
                (refused_Inv past before now w _ inv later (redis.oldest-keeps key v ∙ held))
          | inr free ↦
              rw (returned, free) (allowed_Inv past before now w v inv later held (ground arith))
        ]

    pub Reach-Inv :
        {past : List ℕ} {now : ℕ} {w : W}
        → Reach redis second limit window key past now w
        → Inv past now w
    Reach-Inv (start w now none_held) = record {
      held = none_held;
      old = tt;
      bounded = λ t. omega arith;
    }
    Reach-Inv (request {past} {before} {w} r now later) =
        decided_lem past before now w (Reach-Inv r) later

    -- While Redis answers and requests come at growing times, at most `limit` of the allowed requests
    -- lie in any window of time of the configured length, whatever the times are.
    pub Reach-bounded :
        {past : List ℕ} {now : ℕ} {w : W}
        → Reach redis second limit window key past now w
        → (t : ℕ) → count (is_in window t) past ≤ limit
    Reach-bounded r t = (Reach-Inv r).bounded t
