-- ===== src/Delivery/Keys/Laws.antt =====
-- The idempotency key names a set of recipients.
use mathlib.Core.List.{Perm}
use native.Mathlib.Nat.{ℕ_set}
use mathlib.Core.List.{is_set}
use claim_it_all.Prelude.{ℕ, List, ◌≡◌}
use claim_it_all.Prelude.Text.{Text, text_le, text_le_total, text_le_trans, text_le_antisymm}
use claim_it_all.Prelude.Sorting.{sort-perm_eq}
use claim_it_all.Delivery.Keys.{build_idempotency_key}

-- The key of an attempt does not depend on the order in which its recipients are listed.
pub build_idempotency_key-perm :
    (sha256_hex : Text → Text) (authorization_id channel : Text) (attempt_number : ℕ)
    {ids ids' : List Text}
    → Perm ids ids'
    → build_idempotency_key sha256_hex authorization_id channel attempt_number ids
      ≡ build_idempotency_key sha256_hex authorization_id channel attempt_number ids'
unfolding build_idempotency_key
build_idempotency_key-perm sha256_hex authorization_id channel attempt_number {ids} {ids'} p =
    rw (sort-perm_eq text_le text_le_total text_le_trans text_le_antisymm (is_set ℕ_set) p)
