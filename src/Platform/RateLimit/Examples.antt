-- ===== src/Platform/RateLimit/Examples.antt =====
-- A store of counters that does what Redis documents, and a limit of two requests in a minute.
use microservices_base_platf.Prelude.{
  ℕ, suc, ◌-◌, ◌*◌, ◌<◌, ◌≡◌, ◌≢◌, refl, inl, inr, false, Option, none, some, List, [], ◌∷◌, leb,
  str_eq, str_eq_iff, str_eq_refl, if◌then◌else◌, Bool-cases, ℤ, pos, negsuc, arith, ap, ◌∙◌,
}
use microservices_base_platf.Platform.RateLimit.{
  Key, Redis, Laws, Config, Event, request, waits, second, replies_to,
}
use microservices_base_platf.Platform.RateLimit.Window.{Ranked, gin_middleware-Ranked}

abbrev Counter : Type 0
Counter = Option (ℕ × Option ℕ)

abbrev Store : Type 0
Store = Key → Counter

abbrev put : Key → Counter → Store → Store
put k c s = λ j. if str_eq j k then c else s j

abbrev number : Counter → ℕ
number none = 0
number (some (n, t)) = n

abbrev raised : Counter → Counter
raised none = some (1, none)
raised (some (n, t)) = some (suc n, t)

abbrev expiring : ℕ → Counter → Counter
expiring d none = none
expiring d (some (n, t)) = some (n, some d)

abbrev left_of : Counter → ℤ
left_of none = negsuc 1
left_of (some (n, none)) = negsuc 0
left_of (some (n, some t)) = pos t

abbrev aged : ℕ → Counter → Counter
aged d none = none
aged d (some (n, none)) = some (n, none)
aged d (some (n, some t)) = if leb t d then none else some (n, some (t - d))

abbrev store : Redis Store
store = record {
  incr = λ k s. (suc (number (s k)), put k (raised (s k)) s);
  expire = λ k d s. put k (expiring d (s k)) s;
  ttl = λ k s. left_of (s k);
  pause = λ d s. λ j. aged d (s j);
}

put_same : (k : Key) (c : Counter) (s : Store) → put k c s k ≡ c
put_same k c s = rw (str_eq_refl k) refl

put_other : (j k : Key) (c : Counter) (s : Store) → j ≢ k → put k c s j ≡ s j
put_other j k c s d = elim (Bool-cases (str_eq j k)) [
  | inl e ↦ absurd (d ((str_eq_iff j k).0 e))
  | inr e ↦ rw e refl
]

not_aged : (d t : ℕ) → d < t → leb t d ≡ false
not_aged d t l = ground arith

abbrev laws : Laws store
laws = record {
  counter = λ k s. s k;
  incr_new = λ k s h. (ap (λ c. suc (number c)) h, put_same k _ s ∙ ap raised h);
  incr_more = λ k s n t h. (ap (λ c. suc (number c)) h, put_same k _ s ∙ ap raised h);
  incr_other = λ j k s d. put_other j k _ s d;
  expire_set = λ k d s n t l h. put_same k _ s ∙ ap (expiring d) h;
  expire_other = λ j k d s e. put_other j k _ s e;
  ttl_left = λ k s n t h. ap left_of h;
  pause_none = λ k d s h. ap (aged d) h;
  pause_left = λ k d s n t l h. ap (aged d) h ∙ rw (not_aged d t l) refl;
}

abbrev two_a_minute : Config
two_a_minute = record { limit = 2; window = 60 * second }

abbrev events : List Event
events =
    request "a" none
    ∷ waits 10
    ∷ request "b" none
    ∷ request "a" none
    ∷ request "a" (some "down")
    ∷ waits 20
    ∷ request "a" none
    ∷ []

gin_middleware-Ranked_example :
    Ranked two_a_minute 0 (replies_to store two_a_minute "a" events (λ k. none))
gin_middleware-Ranked_example =
    gin_middleware-Ranked store laws two_a_minute "a" events (λ k. none) refl (ground arith)
