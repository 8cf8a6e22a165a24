-- ===== src/Platform/RateLimit/Window.antt =====
-- The requests of a key within one window.
use microservices_base_platf.Prelude.{
  ℕ, zero, suc, ◌+◌, ◌-◌, ◌<◌, ◌≤◌, ◌≡◌, ◌≢◌, refl, sym, ap, ◌∙◌, ◌⊎◌, inl, inr, String, Bool, true,
  false, Option, none, some, List, [], ◌∷◌, leb, ◌==◌, str_eq, str_eq_iff, str_eq_refl, Bool-cases,
  ℤ, pos, arith, subst,
}
use microservices_base_platf.Platform.Errors.{too_many_requests}
use microservices_base_platf.Platform.RateLimit.{
  Key, Redis, Laws, Config, Headers, Reply, passed, refused, Event, request, waits, window_secs,
  result_of, reply_to, expire_if, counted, lua_fixed_window, results, allow, gin_middleware,
  replies_to,
}

-- The seconds that pass.
abbrev pub elapsed : List Event → ℕ
elapsed [] = 0
elapsed (waits d ∷ events) = d + elapsed events
elapsed (request k e ∷ events) = elapsed events

abbrev Promises : Config → ℕ → Headers → Type 0
Promises cfg n h =
    (h.limit ≡ cfg.limit) × (h.remaining ≡ cfg.limit - suc n) × (h.reset ≤ window_secs cfg)

-- The reply that a request deserves behind n others.
abbrev pub Deserves : Config → ℕ → Reply → Type 0
Deserves cfg n (passed none) = ⊥
Deserves cfg n (passed (some h)) = (n < cfg.limit) × Promises cfg n h × (h.retry_after ≡ none)
Deserves cfg n (refused e h) =
    (cfg.limit ≤ n) × (e ≡ too_many_requests) × Promises cfg n h × (h.retry_after ≡ some h.reset)

-- The replies behind n others: one to a request whose script failed is no limit and not counted.
abbrev pub Ranked : Config → ℕ → List (Option String × Reply) → Type 0
Ranked cfg n [] = Unit
Ranked cfg n ((some e, r) ∷ rs) = (r ≡ passed none) × Ranked cfg n rs
Ranked cfg n ((none, r) ∷ rs) = Deserves cfg n r × Ranked cfg (suc n) rs

reply-Deserves :
    (cfg : Config) (n t : ℕ)
    → t ≤ window_secs cfg
    → Deserves cfg n (reply_to cfg (some (result_of cfg (suc n) (pos t))))
reply-Deserves cfg n t l = elim (Bool-cases (leb (suc n) cfg.limit)) [
  | inl e ↦ rw e (ground (arith, e), (refl, refl, l), refl)
  | inr e ↦ rw e (ground (arith, e), refl, (refl, refl, l), refl)
]

not_one : (n : ℕ) → (suc (suc n) == 1) ≡ false
not_one n = ground arith

module _ {S : Type 0} (redis : Redis S) (laws : Laws redis) (cfg : Config) (k : Key) where
  -- The counter of the key stands at n and expires later than `left` seconds from now.
  abbrev Counts : ℕ → ℕ → S → Type 0
  Counts n left s =
      (t : ℕ) × (laws.counter k s ≡ some (n, some t)) × (left < t) × (t ≤ window_secs cfg) × (0 < n)

  -- Or the window has not begun.
  abbrev IsAt : ℕ → ℕ → S → Type 0
  IsAt n left s = ((laws.counter k s ≡ none) × (n ≡ 0) × (left < window_secs cfg)) ⊎ Counts n left s

  -- What the script gives to the request behind n others.
  abbrev IsCounted : ℕ → ℕ → (ℕ × ℤ) × S → Type 0
  IsCounted n left x =
      (t : ℕ) × (x.0 ≡ (suc n, pos t))
      × (laws.counter k x.1 ≡ some (suc n, some t))
      × (left < t)
      × (t ≤ window_secs cfg)

  counted_first :
      (left : ℕ) (p : ℕ × S)
      → p.0 ≡ 1
      → laws.counter k p.1 ≡ some (1, none)
      → left < window_secs cfg
      → IsCounted 0 left (counted redis cfg k p)
  counted_first left (c, s) e h l =
      rw e (window_secs cfg, ap (λ t. (1, t)) (laws.ttl_left k _ 1 _ set), set, l, omega arith)
    where
      set : laws.counter k (redis.expire k (window_secs cfg) s) ≡ some (1, some (window_secs cfg))
      set = laws.expire_set k (window_secs cfg) s 1 none (omega arith) h

  counted_more :
      (n left t : ℕ) (p : ℕ × S)
      → p.0 ≡ suc (suc n)
      → laws.counter k p.1 ≡ some (suc (suc n), some t)
      → left < t
      → t ≤ window_secs cfg
      → IsCounted (suc n) left (counted redis cfg k p)
  counted_more n left t (c, s) e h l m =
      rw (e, not_one n) (t, ap (λ x. (suc (suc n), x)) (laws.ttl_left k _ _ _ h), h, l, m)

  script-IsCounted :
      (n left : ℕ) (s : S) → IsAt n left s → IsCounted n left (lua_fixed_window redis cfg k s)
  script-IsCounted zero left s (inl (h, e, l)) =
      let (c, set) = laws.incr_new k s h in counted_first left (redis.incr k s) c set l
  script-IsCounted (suc n) left s (inl (h, e, l)) = ground (arith, e)
  script-IsCounted zero left s (inr (t, h, l, m, p)) = ground (arith, p)
  script-IsCounted (suc n) left s (inr (t, h, l, m, p)) =
      let (c, set) = laws.incr_more k s (suc n) (some t) h in
      counted_more n left t (redis.incr k s) c set l m

  abbrev IsServed : ℕ → ℕ → Reply × S → Type 0
  IsServed n left x = Deserves cfg n x.0 × IsAt (suc n) left x.1

  middleware-IsServed :
      (n left : ℕ) (s : S) → IsAt n left s → IsServed n left (gin_middleware redis cfg none k s)
  unfolding allow gin_middleware
  middleware-IsServed n left s h =
      by_script (lua_fixed_window redis cfg k s) (script-IsCounted n left s h)
    where
      by_script :
          (x : (ℕ × ℤ) × S)
          → IsCounted n left x
          → Deserves cfg n (reply_to cfg (results redis cfg x).0)
            × IsAt (suc n) left (results redis cfg x).1
      by_script ((c, ttl), s') (t, e, h', l, m) = (
        subst (λ y. Deserves cfg n (reply_to cfg (some (result_of cfg y.0 y.1)))) (sym e)
            (reply-Deserves cfg n t m),
        inr (t, h', l, m, omega arith),
      )

  -- The requests of other keys do not touch the counter.
  other-counter :
      (j : Key) (o : Option String) (s : S)
      → k ≢ j
      → laws.counter k (gin_middleware redis cfg o j s).1 ≡ laws.counter k s
  unfolding allow gin_middleware
  other-counter j (some e) s d = refl
  other-counter j none s d = by_flag _ (redis.incr j s).1 ∙ laws.incr_other k j s d
    where
      by_flag :
          (b : Bool) (s' : S) → laws.counter k (expire_if redis cfg b j s') ≡ laws.counter k s'
      by_flag false s' = refl
      by_flag true s' = laws.expire_other k j (window_secs cfg) s' d

  IsAt-same :
      (n left : ℕ) (s s' : S)
      → laws.counter k s' ≡ laws.counter k s
      → IsAt n left s
      → IsAt n left s'
  IsAt-same n left s s' e (inl (h, z, l)) = inl (e ∙ h, z, l)
  IsAt-same n left s s' e (inr (t, h, l, m, p)) = inr (t, e ∙ h, l, m, p)

  IsAt-pause : (n d left : ℕ) (s : S) → IsAt n (d + left) s → IsAt n left (redis.pause d s)
  IsAt-pause n d left s (inl (h, z, l)) = inl (laws.pause_none k d s h, z, omega arith)
  IsAt-pause n d left s (inr (t, h, l, m, p)) =
      inr (t - d, laws.pause_left k d s n t (omega arith) h, omega arith, omega arith, p)

  -- A request of the key, before requests for which it is known.
  request-Ranked :
      (o : Option String) (n left : ℕ) (s : S) (rest : S → List (Option String × Reply))
      → ((m : ℕ) (s' : S) → IsAt m left s' → Ranked cfg m (rest s'))
      → IsAt n left s
      → Ranked cfg n
          ((o, (gin_middleware redis cfg o k s).0) ∷ rest (gin_middleware redis cfg o k s).1)
  unfolding gin_middleware allow
  request-Ranked (some e) n left s rest f h = (refl, f n s h)
  request-Ranked none n left s rest f h =
      let (served, after) = middleware-IsServed n left s h in (served, f (suc n) _ after)

  replies-Ranked :
      (n : ℕ) (events : List Event) (s : S)
      → IsAt n (elapsed events) s
      → Ranked cfg n (replies_to redis cfg k events s)
  unfolding replies_to
  replies-Ranked n [] s h = tt
  replies-Ranked n (waits d ∷ events) s h =
      replies-Ranked n events (redis.pause d s) (IsAt-pause n d (elapsed events) s h)
  replies-Ranked n (request j e ∷ events) s h = elim (Bool-cases (str_eq j k)) [
    | inr f ↦
        rw f
          (replies-Ranked n events _ (IsAt-same n _ s _ (other-counter j e s (λ q. differs f q)) h))
    | inl y ↦ rw y (
        subst
          (λ i. Ranked cfg n (
            (e, (gin_middleware redis cfg e i s).0)
            ∷ replies_to redis cfg k events (gin_middleware redis cfg e i s).1))
          (sym ((str_eq_iff j k).0 y))
          (request-Ranked e n (elapsed events) s (replies_to redis cfg k events)
            (λ m s' h'. replies-Ranked m events s' h') h))
  ]
    where
      apart : true ≢ false
      apart e = cc

      differs : str_eq j k ≡ false → k ≢ j
      differs f q = absurd (apart (sym (str_eq_refl k) ∙ ap (λ i. str_eq i k) q ∙ f))

-- If Redis does what it promises, the window is at least a second long and the key has no counter
-- yet, then over requests of any keys and pauses that together are shorter than the window, the
-- middleware lets the first `limit` requests of the key go on and refuses all later ones with
-- TooManyRequests and the header Retry-After, each with the number of requests that remain and a
-- reset within the window. Requests whose script fails go on without headers and are not counted,
-- and requests of other keys make no difference.
pub gin_middleware-Ranked :
    {S : Type 0} (redis : Redis S) (laws : Laws redis) (cfg : Config) (k : Key)
    (events : List Event) (s : S)
    → laws.counter k s ≡ none
    → elapsed events < window_secs cfg
    → Ranked cfg 0 (replies_to redis cfg k events s)
gin_middleware-Ranked redis laws cfg k events s h l =
    replies-Ranked redis laws cfg k 0 events s (inl (h, refl, l))
