-- ===== src/RateLimit.antt =====
-- `apps/web/src/server/auth/rate-limit.ts`: how often a client may call an operation. The answer of
-- Redis and the clock are arguments; `memoryBuckets` is a function of its keys.
pub mod Laws
mod Tests
use claim_it_all.Prelude.{
  ℕ, suc, ◌+◌, ◌-◌, ◌*◌, ◌/◌, Bool, true, false, not, ◌&&◌, Option, none, some, ◌++◌, leb, ltb,
  if◌then◌else◌,
}
use claim_it_all.Prelude.Int.{ℤ, pos, negsuc}
use claim_it_all.Prelude.Text.{Text, codes, text_eq}

pub record RateLimitResult : Type 0 where
  pub allowed : Bool
  pub remaining : ℕ
  pub retry_after_seconds : ℕ

pub record Bucket : Type 0 where
  pub count : ℕ
  pub reset_at : ℕ

abbrev pub result : Bool → ℕ → ℕ → RateLimitResult
result allowed remaining seconds = record {
  allowed = allowed;
  remaining = remaining;
  retry_after_seconds = seconds;
}

abbrev pub bucket : ℕ → ℕ → Bucket
bucket count reset_at = record { count = count; reset_at = reset_at }

abbrev pub Buckets : Type 0
Buckets = Text → Option Bucket

-- `memoryBuckets.set(key, bucket)`
abbrev pub set_bucket : Text → Bucket → Buckets → Buckets
set_bucket key b buckets k = if text_eq k key then some b else buckets k

abbrev pub max : ℕ → ℕ → ℕ
max a b = if leb a b then b else a

-- `Math.ceil(ms / 1000)`
abbrev pub seconds_up : ℕ → ℕ
seconds_up ms = (ms + 999) / 1000

-- A first call in a window. Every caller's limit is positive.
abbrev pub open_window : ℕ → ℕ → ℕ → RateLimitResult × Bucket
open_window now limit window = (result true (limit - 1) window, bucket 1 (now + window * 1000))

-- A call in a window that is open.
abbrev pub count_call : ℕ → ℕ → Bucket → RateLimitResult × Bucket
count_call now limit current =
    let count = suc current.count in
    (
      result (leb count limit) (limit - count) (max 1 (seconds_up (current.reset_at - now))),
      bucket count current.reset_at,
    )

-- `!current || current.resetAt <= now`
abbrev pub limit_bucket : ℕ → ℕ → ℕ → Option Bucket → RateLimitResult × Bucket
limit_bucket now limit window none = open_window now limit window
limit_bucket now limit window (some current) =
    if leb current.reset_at now then open_window now limit window else count_call now limit current

unfoldable pub limit_with_memory : ℕ → Text → ℕ → ℕ → Buckets → RateLimitResult × Buckets
limit_with_memory now key limit window buckets =
    let answer = limit_bucket now limit window (buckets key) in
    (answer.0, set_bucket key answer.1 buckets)

-- What Redis answers to `incr` and `ttl`; a negative `ttl` means that no expiry is set.
pub record RedisAnswer : Type 0 where
  pub count : ℕ
  pub ttl : ℤ

abbrev pub retry_after : ℤ → ℕ → ℕ
retry_after (pos n) window = if ltb 0 n then n else window
retry_after (negsuc n) window = window

abbrev pub limit_with_redis : RedisAnswer → ℕ → ℕ → RateLimitResult
limit_with_redis redis limit window =
    result (leb redis.count limit) (limit - redis.count) (retry_after redis.ttl window)

-- `NODE_ENV === 'production'` and `ALLOW_DEV_DEFAULTS`
pub record ServerEnv : Type 0 where
  pub production : Bool
  pub allow_dev_defaults : Bool

-- `none` stands for a Redis that is not reached.
unfoldable pub consume_rate_limit :
    ServerEnv → Option RedisAnswer → ℕ → Text → ℕ → ℕ → Buckets → RateLimitResult × Buckets
consume_rate_limit env (some redis) now key limit window buckets =
    (limit_with_redis redis limit window, buckets)
consume_rate_limit env none now key limit window buckets =
    if env.production && not env.allow_dev_defaults
    then (result false 0 window, buckets)
    else limit_with_memory now key limit window buckets

-- The exported functions, one constructor for each, with their arguments.
pub data Operation : Type 0 where
  login : Text → Text → Operation
  upload_initiate : Text → Text → Operation
  upload_complete : Text → Operation
  download : Text → Operation
  processing_retry : Text → Operation

-- `lower` stands for `toLowerCase`.
abbrev pub key_of : (Text → Text) → Operation → Text
key_of lower (Operation.login ip email) = codes "login:" ++ (ip ++ (codes ":" ++ lower email))
key_of lower (Operation.upload_initiate user project) =
    codes "upload:init:" ++ (user ++ (codes ":" ++ project))
key_of lower (Operation.upload_complete user) = codes "upload:complete:" ++ user
key_of lower (Operation.download user) = codes "download:" ++ user
key_of lower (Operation.processing_retry user) = codes "processing:retry:" ++ user

abbrev pub limit_of : Operation → ℕ
limit_of (Operation.login ip email) = 10
limit_of (Operation.upload_initiate user project) = 30
limit_of (Operation.upload_complete user) = 60
limit_of (Operation.download user) = 60
limit_of (Operation.processing_retry user) = 20

unfoldable pub consume :
    (Text → Text)
    → ServerEnv
    → Option RedisAnswer
    → ℕ
    → Operation
    → Buckets
    → RateLimitResult × Buckets
consume lower env redis now operation buckets =
    consume_rate_limit env redis now (key_of lower operation) (limit_of operation) 60 buckets
