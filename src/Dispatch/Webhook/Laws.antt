-- ===== src/Dispatch/Webhook/Laws.antt =====
-- A webhook is processed once, and leaves the attempt in the status of its recipients.
use claim_it_all.Prelude.{
  Some, map, keep, none, ==_iff, ℕ, ◌+◌, Bool, true, false, Option, some, List, [], ◌∷◌, ◌++◌, ◌≡◌,
  ◌∙◌, refl, sym, ap, arith, any, find, update_where, ◌==◌, ==_refl, All, All-update_where,
  Bool-cases, inl, inr, some_inj,
}
use mathlib.Core.Path.{subst}
use claim_it_all.Prelude.Text.{Text, text_eq, text_eq_refl, text_eq_iff}
use claim_it_all.Delivery.Types.{AttemptStatus}
use claim_it_all.Dispatch.Types.{Attempt, Recipient, ProviderEvent}
use claim_it_all.Service.Result.{ok, guard-returns, or_throw-returns}
use claim_it_all.Service.Rows.{find_test, find-Some}
use claim_it_all.Delivery.Status.{aggregate_recipient_status}
use claim_it_all.Dispatch.Store.{Db}
use claim_it_all.Dispatch.Provider.{WebhookParseResult, Webhook, Provider}
use claim_it_all.Dispatch.Once.{IsSound, Sound-attempts}
use claim_it_all.Dispatch.Bodies.{ok_inj, left_by}
use claim_it_all.Dispatch.Webhook.{
  Answer, duplicate, processed, has_message_id, is_attempt_for, is_event, new_event, reported,
  status_of_attempt, with_status, after_event, answered, process_event, process_in,
}

find_other :
    (p q : Attempt → Bool) (xs : List Attempt) (x : Attempt)
    → find p xs ≡ some x
    → q x ≡ true
    → (z : Attempt) × (find q xs ≡ some z)
find_other p q [] x e f = cc e
find_other p q (y ∷ ys) x e f = elim (Bool-cases (q y)) [
  | inl g ↦ (y, rw g refl)
  | inr g ↦ elim (Bool-cases (p y)) [
    | inl h ↦ cc (sym f ∙ ap q (sym (some_inj (rw h at e))) ∙ g)
    | inr h ↦ rw g (find_other p q ys x (rw h at e) f)
  ]
]

find-update :
    (p q : Attempt → Bool) (change : Attempt → Attempt) (xs : List Attempt) (x : Attempt)
    → ((t : Attempt) → p (change t) ≡ p t)
    → find p xs ≡ some x
    → (z : Attempt) × (find p (update_where q change xs) ≡ some z)
find-update p q change [] x same e = cc e
find-update p q change (y ∷ ys) x same e = elim (Bool-cases (q y)) [
  | inl g ↦ elim (Bool-cases (p y)) [
    | inl h ↦ (change y, rw (g, same y, h) refl)
    | inr h ↦ rw (g, same y, h) (find-update p q change ys x same (rw h at e))
  ]
  | inr g ↦ elim (Bool-cases (p y)) [
    | inl h ↦ (y, rw (g, h) refl)
    | inr h ↦ rw (g, h) (find-update p q change ys x same (rw h at e))
  ]
]

any-append :
    (p : ProviderEvent → Bool) (xs : List ProviderEvent) (y : ProviderEvent)
    → p y ≡ true
    → any p (xs ++ y ∷ []) ≡ true
any-append p [] y e = rw e refl
any-append p (x ∷ xs) y e = ground (arith, any-append p xs y e)

is_event_new :
    (kind : Text) (parsed : WebhookParseResult) (attempt : Attempt) (id : ℕ)
    → is_event kind parsed (new_event kind parsed attempt id) ≡ true
is_event_new kind parsed attempt id =
    rw (text_eq_refl kind, text_eq_refl parsed.provider_event_id) refl

module _ (kind : Text) (parsed : WebhookParseResult) (db : Db) where
  after_event_again :
      (lookup attempt : Attempt)
      → find (is_attempt_for parsed) db.attempts ≡ some lookup
      → process_event kind parsed (after_event kind parsed attempt db)
        ≡ ok (duplicate, after_event kind parsed attempt db)
  unfolding process_event
  after_event_again lookup attempt e =
      let status = status_of_attempt attempt.id (reported parsed attempt db.recipients) in
      let rows =
        update_where (λ (t : Attempt). t.id == attempt.id) (with_status status) db.attempts in
      let (seen, f) =
        find-update (is_attempt_for parsed) (λ t. t.id == attempt.id) (with_status status)
          db.attempts lookup (λ _. refl) e in
      let (again, g) =
        find_other (is_attempt_for parsed) (λ t. t.id == seen.id) rows seen f (==_refl seen.id) in
      rw
        (
          f,
          g,
          any-append (is_event kind parsed) db.events (new_event kind parsed attempt db.next_id)
              (is_event_new kind parsed attempt db.next_id),
        )
        refl

  decided :
      (seen : Bool) (attempt : Attempt) (status : AttemptStatus) (after : Db)
      → ok (answered kind parsed attempt db seen) ≡ ok (processed status, after)
      → (after_event kind parsed attempt db ≡ after)
        × (status_of_attempt attempt.id (reported parsed attempt db.recipients) ≡ status)
  decided true attempt status after e = cc e
  decided false attempt status after e = (ap (λ r. r.1) (ok_inj e), inj (ap (λ r. r.0) (ok_inj e)))
    where
      inj : {s t : AttemptStatus} → processed s ≡ processed t → s ≡ t
      inj f = cc

  message_id :
      (id : Text) (stored : Option Text) → has_message_id id stored ≡ true → stored ≡ some id
  message_id id none e = cc e
  message_id id (some t) e = ap some ((text_eq_iff t id).0 e)

  -- What an event leaves, if it is processed.
  processed_lem :
      (status : AttemptStatus) (after : Db)
      → process_event kind parsed db ≡ ok (processed status, after)
      → (lookup : Attempt) × (attempt : Attempt) × (find (is_attempt_for parsed) db.attempts
          ≡ some lookup)
        × (find (λ (t : Attempt). t.id == lookup.id) db.attempts ≡ some attempt)
        × (after_event kind parsed attempt db ≡ after)
        × (status_of_attempt attempt.id (reported parsed attempt db.recipients) ≡ status)
  unfolding process_event
  processed_lem status after body =
      let (lookup, e, body) =
        or_throw-returns (find (is_attempt_for parsed) db.attempts) _ _ body in
      let (attempt, f, body) =
        or_throw-returns (find (λ (t : Attempt). t.id == lookup.id) db.attempts) _ _ body in
      let (same, status_same) =
        decided (any (is_event kind parsed) db.events) attempt status after body in
      (lookup, attempt, e, f, same, status_same)

  -- An event that was processed is a duplicate when it comes again, and then changes nothing.
  pub process_event_twice :
      (status : AttemptStatus) (after : Db)
      → process_event kind parsed db ≡ ok (processed status, after)
      → process_event kind parsed after ≡ ok (duplicate, after)
  process_event_twice status after body =
      let (lookup, attempt, e, _, same, _) = processed_lem status after body in
      subst (λ d. process_event kind parsed d ≡ ok (duplicate, d)) same
        (after_event_again lookup attempt e)

  -- After an event is processed, its attempt, which has the event's message id, has in every row the
  -- status that its recipients, as they are stored then, aggregate to; this status is the answer, and
  -- the event is stored with the attempt.
  pub process_event_status :
      (status : AttemptStatus) (after : Db)
      → process_event kind parsed db ≡ ok (processed status, after)
      → (id : ℕ) × Some
          (λ (t : Attempt). (t.id ≡ id) × (t.provider_message_id ≡ some parsed.provider_message_id))
          db.attempts
        × (status
            ≡ aggregate_recipient_status (
                map
                  (λ (r : Recipient). r.status)
                  (keep (λ (r : Recipient). r.dispatch_attempt_id == id) after.recipients)))
        × All (λ (t : Attempt). t.id ≡ id → t.status ≡ status) after.attempts
        × Some
            (λ (e : ProviderEvent).
              (e.provider ≡ kind)
              × (e.provider_event_id ≡ parsed.provider_event_id)
              × (e.dispatch_attempt_id ≡ id))
            after.events
  process_event_status status after body =
      let (lookup, attempt, e, f, same, answer) = processed_lem status after body in
      let own : attempt.id ≡ lookup.id =
        (==_iff attempt.id lookup.id).0
          (find_test (λ (t : Attempt). t.id == lookup.id) db.attempts attempt f) in
      (
        attempt.id,
        find-Some
            (λ (t : Attempt).
              (t.id ≡ attempt.id) × (t.provider_message_id ≡ some parsed.provider_message_id))
            (is_attempt_for parsed) db.attempts lookup e
            (
              sym own,
              message_id parsed.provider_message_id lookup.provider_message_id
                  (find_test (is_attempt_for parsed) db.attempts lookup e),
            ),
        sym answer ∙ ap (λ (d : Db). status_of_attempt attempt.id d.recipients) same,
        subst (λ (d : Db). All (λ (t : Attempt). t.id ≡ attempt.id → t.status ≡ status) d.attempts)
            same (rows_status attempt answer),
        subst
            (λ (d : Db).
              Some
                (λ (e : ProviderEvent).
                  (e.provider ≡ kind)
                  × (e.provider_event_id ≡ parsed.provider_event_id)
                  × (e.dispatch_attempt_id ≡ attempt.id))
                d.events)
            same (stored attempt db.events),
      )
    where
      any_row : (xs : List Attempt) → All (λ _. Unit {0}) xs
      any_row [] = tt
      any_row (x ∷ xs) = (tt, any_row xs)

      rows_status :
          (attempt : Attempt)
          → status_of_attempt attempt.id (reported parsed attempt db.recipients) ≡ status
          → All
              (λ (t : Attempt). t.id ≡ attempt.id → t.status ≡ status)
              (after_event kind parsed attempt db).attempts
      rows_status attempt answer =
          All-update_where (λ _. Unit {0}) (λ (t : Attempt). t.id ≡ attempt.id → t.status ≡ status)
            (λ (t : Attempt). t.id == attempt.id)
            (with_status (status_of_attempt attempt.id (reported parsed attempt db.recipients)))
            (λ t _ _ _. answer)
            (λ t _ missed found. cc (sym missed ∙ (==_iff t.id attempt.id).1 found)) db.attempts
            (any_row db.attempts)

      stored :
          (attempt : Attempt) (es : List ProviderEvent)
          → Some
              (λ (e : ProviderEvent).
                (e.provider ≡ kind)
                × (e.provider_event_id ≡ parsed.provider_event_id)
                × (e.dispatch_attempt_id ≡ attempt.id))
              (es ++ new_event kind parsed attempt db.next_id ∷ [])
      stored attempt [] = inl (refl, refl, refl)
      stored attempt (e ∷ es) = inr (stored attempt es)

event-IsSound :
    (kind : Text) (parsed : WebhookParseResult) (db after : Db) (a : Answer)
    → IsSound db
    → process_event kind parsed db ≡ ok (a, after)
    → IsSound after
unfolding process_event
event-IsSound kind parsed db after a h body =
    let (lookup, e, body) = or_throw-returns (find (is_attempt_for parsed) db.attempts) _ _ body in
    let (attempt, f, body) =
      or_throw-returns (find (λ (t : Attempt). t.id == lookup.id) db.attempts) _ _ body in
    kept (any (is_event kind parsed) db.events) attempt body
  where
    kept :
        (seen : Bool) (attempt : Attempt)
        → ok (answered kind parsed attempt db seen) ≡ ok (a, after)
        → IsSound after
    kept true attempt e = left_by e h
    kept false attempt e = left_by e (
        Sound-attempts db.next_id db.authorizations db.attempts h (db.next_id + 1)
          (λ (t : Attempt). t.id == attempt.id)
          (with_status (status_of_attempt attempt.id (reported parsed attempt db.recipients)))
          (omega arith) (λ _. refl))

pub webhook-IsSound :
    (provider : Option Provider) (kind : Text) (sent : Webhook) (db after : Db) (a : Answer)
    → IsSound db
    → process_in provider kind sent db ≡ ok (a, after)
    → IsSound after
unfolding process_in
webhook-IsSound provider kind sent db after a h body =
    let (p, _, body) = or_throw-returns provider _ _ body in
    let (_, body) = guard-returns (text_eq p.kind kind) _ _ body in
    let (verify, _, body) = or_throw-returns p.verify_webhook _ _ body in
    let (parse, _, body) = or_throw-returns p.parse_webhook_event _ _ body in
    let (_, body) = guard-returns (verify sent) _ _ body in
    event-IsSound kind (parse sent.raw_body) db after a h body
