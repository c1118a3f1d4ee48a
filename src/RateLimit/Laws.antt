-- ===== src/RateLimit/Laws.antt =====
-- How many calls of an operation pass in one window.
use claim_it_all.Prelude.{
  ℕ, suc, ◌+◌, ◌-◌, ◌*◌, ◌≤◌, ◌<◌, Bool, true, false, ◌&&◌, not, Option, none, some, List, [], ◌∷◌,
  ◌≡◌, ◌⊎◌, inl, inr, refl, arith, leb, if◌then◌else◌, All, Bool-cases, ◌∙◌, sym, ap,
}
use claim_it_all.Prelude.Text.{Text, text_eq, text_eq_iff, text_eq_refl}
use claim_it_all.Prelude.Int.{ℤ, pos, negsuc}
use claim_it_all.RateLimit.{
  max, seconds_up, Bucket, bucket, Buckets, open_window, limit_bucket, limit_with_memory, ServerEnv,
  RedisAnswer, Operation, key_of, limit_of, consume, consume_rate_limit, limit_with_redis,
  retry_after,
}

-- A call: its time and its key.
abbrev pub Call : Type 0
Call = ℕ × Text

abbrev pub count_if : Bool → ℕ → ℕ
count_if true n = suc n
count_if false n = n

-- The calls with the given key.
abbrev pub asked : Text → List Call → ℕ
asked key [] = 0
asked key (c ∷ cs) = count_if (text_eq key c.1) (asked key cs)

-- The calls with the given key that pass, from given buckets on.
abbrev pub passed : ℕ → ℕ → Text → List Call → Buckets → ℕ
passed limit window key [] buckets = 0
passed limit window key (c ∷ cs) buckets =
    let answer = limit_with_memory c.0 c.1 limit window buckets in
    count_if (text_eq key c.1 && answer.0.allowed) (passed limit window key cs answer.1)

abbrev pub min : ℕ → ℕ → ℕ
min a b = if leb a b then a else b

other-key :
    (now : ℕ) (key k : Text) (limit window : ℕ) (buckets : Buckets)
    → text_eq k key ≡ false
    → (limit_with_memory now key limit window buckets).1 k ≡ buckets k
unfolding limit_with_memory
other-key now key k limit window buckets h = rw h

same-allowed :
    (now : ℕ) (key : Text) (limit window n until : ℕ) (buckets : Buckets)
    → buckets key ≡ some (bucket n until)
    → now < until
    → (limit_with_memory now key limit window buckets).0.allowed ≡ leb (suc n) limit
unfolding limit_with_memory
same-allowed now key limit window n until buckets e h = rw e (ground arith)

same-bucket :
    (now : ℕ) (key : Text) (limit window n until : ℕ) (buckets : Buckets)
    → buckets key ≡ some (bucket n until)
    → now < until
    → (limit_with_memory now key limit window buckets).1 key ≡ some (bucket (suc n) until)
unfolding limit_with_memory
same-bucket now key limit window n until buckets e h = rw (text_eq_refl key, e) (ground arith)

count-min :
    (limit n asked : ℕ)
    → count_if (leb (suc n) limit) (min (limit - suc n) asked) ≡ min (limit - n) (suc asked)
count-min limit n asked = ground arith

open-window :
    (limit window : ℕ) (key : Text) (n until : ℕ) (cs : List Call) (buckets : Buckets)
    → buckets key ≡ some (bucket n until)
    → All (λ c. c.0 < until) cs
    → passed limit window key cs buckets ≡ min (limit - n) (asked key cs)
open-window limit window key n until [] buckets e h = ground arith
open-window limit window key n until ((now, k) ∷ cs) buckets e (p, h) =
    elim (Bool-cases (text_eq key k)) [
      | inr d ↦ rw d (
          open-window limit window key n until cs (limit_with_memory now k limit window buckets).1
            (other-key now k key limit window buckets d ∙ e) h)
      | inl d ↦
          let q = (text_eq_iff key k).0 d in
          let e' = sym (ap buckets q) ∙ e in
          let after = (limit_with_memory now k limit window buckets).1 in
          rw
            (
              d,
              same-allowed now k limit window n until buckets e' p,
              open-window limit window key (suc n) until cs after
                  (ap after q ∙ same-bucket now k limit window n until buckets e' p) h,
            )
            (count-min limit n (asked key cs))
    ]

-- The key has no bucket, or one that has ended.
abbrev pub IsFresh : ℕ → Option Bucket → Type 0
IsFresh now o = (o ≡ none) ⊎ ((b : Bucket) × (o ≡ some b) × (b.reset_at ≤ now))

fresh-answer :
    (now limit window : ℕ) (o : Option Bucket)
    → IsFresh now o
    → limit_bucket now limit window o ≡ open_window now limit window
fresh-answer now limit window o (inl e) = rw e refl
fresh-answer now limit window o (inr (b, e, p)) = rw e (ground arith)

first-allowed :
    (now : ℕ) (key : Text) (limit window : ℕ) (buckets : Buckets)
    → IsFresh now (buckets key)
    → (limit_with_memory now key limit window buckets).0.allowed ≡ true
unfolding limit_with_memory
first-allowed now key limit window buckets fresh =
    rw (fresh-answer now limit window (buckets key) fresh) refl

first-bucket :
    (now : ℕ) (key : Text) (limit window : ℕ) (buckets : Buckets)
    → IsFresh now (buckets key)
    → (limit_with_memory now key limit window buckets).1 key ≡ some (bucket 1 (now + window * 1000))
unfolding limit_with_memory
first-bucket now key limit window buckets fresh =
    rw (text_eq_refl key, fresh-answer now limit window (buckets key) fresh) refl

-- In a window that the first call for a key opens, exactly the first `limit` calls for that key
-- pass, whatever calls for other keys come between them: of the first call and later ones that all
-- fall before the end of the window, as many pass as there are calls for the key, up to the limit,
-- when the limit is positive and the key has no bucket or one that has ended.
pub limit_with_memory-Caps :
    (limit window now : ℕ) (key : Text) (cs : List Call) (buckets : Buckets)
    → 1 ≤ limit
    → IsFresh now (buckets key)
    → All (λ c. c.0 < now + window * 1000) cs
    → passed limit window key ((now, key) ∷ cs) buckets ≡ min limit (suc (asked key cs))
limit_with_memory-Caps limit window now key cs buckets positive fresh h =
    rw
      (
        text_eq_refl key,
        first-allowed now key limit window buckets fresh,
        open-window limit window key 1 (now + window * 1000) cs
            (limit_with_memory now key limit window buckets).1
            (first-bucket now key limit window buckets fresh) h,
      )
      (ground arith)

retry-positive : (ttl : ℤ) (window : ℕ) → 1 ≤ window → 1 ≤ retry_after ttl window
retry-positive (pos n) window h = ground arith
retry-positive (negsuc n) window h = h

one-max : (n : ℕ) → 1 ≤ max 1 n
one-max n = ground arith

redis-refuses :
    (redis : RedisAnswer) (limit window : ℕ)
    → 1 ≤ window
    → ((limit_with_redis redis limit window).allowed ≡ false
        → (limit_with_redis redis limit window).remaining ≡ 0)
      × (1 ≤ (limit_with_redis redis limit window).retry_after_seconds)
redis-refuses redis limit window h = (ground arith, retry-positive redis.ttl window h)

bucket-refuses :
    (now limit window : ℕ) (o : Option Bucket)
    → 1 ≤ window
    → ((limit_bucket now limit window o).0.allowed ≡ false
        → (limit_bucket now limit window o).0.remaining ≡ 0)
      × (1 ≤ (limit_bucket now limit window o).0.retry_after_seconds)
bucket-refuses now limit window none h = ground arith
bucket-refuses now limit window (some b) h = elim (Bool-cases (leb b.reset_at now)) [
  | inl e ↦ rw e (ground arith)
  | inr e ↦ rw e (ground arith, one-max (seconds_up (b.reset_at - now)))
]

-- Whether Redis answers, memory counts or the limiter fails closed: a call that is refused is told
-- that nothing remains, and every answer asks for a wait of at least one second.
pub consume-Refuses :
    (lower : Text → Text) (env : ServerEnv) (redis : Option RedisAnswer) (now : ℕ)
    (operation : Operation) (buckets : Buckets)
    → ((consume lower env redis now operation buckets).0.allowed ≡ false
        → (consume lower env redis now operation buckets).0.remaining ≡ 0)
      × (1 ≤ (consume lower env redis now operation buckets).0.retry_after_seconds)
unfolding consume consume_rate_limit limit_with_memory
consume-Refuses lower env (some redis) now operation buckets =
    redis-refuses redis (limit_of operation) 60 (omega arith)
consume-Refuses lower env none now operation buckets =
    elim (Bool-cases (env.production && not env.allow_dev_defaults)) [
      | inl e ↦ rw e (ground arith)
      | inr e ↦ rw e (
          bucket-refuses now (limit_of operation) 60 (buckets (key_of lower operation))
            (omega arith))
    ]
