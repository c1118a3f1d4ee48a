-- ===== src/RateLimit/Tests.antt =====
-- The limiter on concrete calls.
use claim_it_all.Prelude.{suc, ◌≤◌, true, false, none, some, List, [], ◌∷◌, ◌≡◌, refl, arith, inl}
use claim_it_all.Prelude.Text.{Text, codes}
use claim_it_all.Prelude.Int.{negsuc}
use claim_it_all.RateLimit.{
  Buckets, ServerEnv, RedisAnswer, Operation, limit_with_memory, consume_rate_limit, consume,
}
use claim_it_all.RateLimit.Laws.{Call, passed, min, asked, limit_with_memory-Caps, consume-Refuses}

abbrev a_key : Text
a_key = codes "a"

abbrev later_calls : List Call
later_calls = (5, a_key) ∷ (6, codes "b") ∷ (7, a_key) ∷ []

abbrev no_buckets : Buckets
no_buckets k = none

-- Two of three calls pass under a limit of two, with a call for another key between them.
two_pass : passed 2 1 a_key ((4, a_key) ∷ later_calls) no_buckets ≡ 2
unfolding limit_with_memory
two_pass = refl

limit_with_memory-Caps_example :
    passed 2 1 a_key ((4, a_key) ∷ later_calls) no_buckets ≡ min 2 (suc (asked a_key later_calls))
limit_with_memory-Caps_example =
    limit_with_memory-Caps 2 1 4 a_key later_calls no_buckets (ground arith) (inl refl)
      (ground arith, (ground arith, (ground arith, tt)))

abbrev production_env : ServerEnv
production_env = record { production = true; allow_dev_defaults = false }

-- Redis has counted an eleventh login and has no expiry for its key.
abbrev eleventh : RedisAnswer
eleventh = record { count = 11; ttl = negsuc 0 }

abbrev a_login : Operation
a_login = Operation.login (codes "1.2.3.4") (codes "a@b.c")

consume-Refuses_example :
    ((consume (λ t. t) production_env (some eleventh) 4 a_login no_buckets).0.allowed ≡ false
      → (consume (λ t. t) production_env (some eleventh) 4 a_login no_buckets).0.remaining ≡ 0)
    × (1
        ≤ (consume
            (λ t. t)
            production_env
            (some eleventh)
            4
            a_login
            no_buckets).0.retry_after_seconds)
consume-Refuses_example =
    consume-Refuses (λ t. t) production_env (some eleventh) 4 a_login no_buckets

fails_closed : (consume (λ t. t) production_env none 4 a_login no_buckets).0.allowed ≡ false
unfolding consume consume_rate_limit
fails_closed = refl
