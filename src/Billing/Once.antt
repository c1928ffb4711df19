-- ===== src/Billing/Once.antt =====
-- Stripe delivers an event of routers/billing.py again until it is answered.
use jobwatch.Prelude.{
  ◌≡◌, ◌∙◌, ap, sym, refl, Bool, true, inl, inr, head, Mem-append_right, Bool-cases, elem, Mem-elem,
}
use jobwatch.Http.{Reply, ok, raised, past-found, ok-injective}
use jobwatch.Billing.{
  Accounting, EventType, completed, sub_updated, sub_deleted, payment_failed, unknown_type,
  StripeObject, StripeEvent, complete, renew, fail_payment, status_of, change_sub, apply_stripe,
  note_event, first_time, handle_event,
}

change_sub-events :
    (kind : EventType) (obj : StripeObject) (t after : Accounting)
    → change_sub kind obj t ≡ ok after
    → after.stripe_events ≡ t.stripe_events
unfolding renew
change_sub-events kind obj t after h =
    let (status, e, rest) = past-found 500 (status_of kind obj) _ h in
    let (cu, e', end) = past-found 500 obj.customer _ rest in
    sym (ap (λ (x : Accounting). x.stripe_events) (ok-injective end))

apply_stripe-events :
    (kind : EventType) (obj : StripeObject) (t after : Accounting)
    → apply_stripe kind obj t ≡ ok after
    → after.stripe_events ≡ t.stripe_events
unfolding apply_stripe complete fail_payment
apply_stripe-events completed obj t after h =
    let (plan, e, rest) = past-found 400 obj.metadata_plan _ h in
    let (org, e', end) = past-found 400 obj.metadata_org _ rest in
    sym (ap (λ (x : Accounting). x.stripe_events) (ok-injective end))
apply_stripe-events sub_updated obj t after h = change_sub-events sub_updated obj t after h
apply_stripe-events sub_deleted obj t after h = change_sub-events sub_deleted obj t after h
apply_stripe-events payment_failed obj t after h =
    let (cu, e, end) = past-found 500 obj.customer _ h in
    sym (ap (λ (x : Accounting). x.stripe_events) (ok-injective end))
apply_stripe-events unknown_type obj t after h =
    sym (ap (λ (x : Accounting). x.stripe_events) (ok-injective h))

first_time-ok :
    (r : Reply Accounting) (d : Bool) (after : Accounting)
    → first_time r ≡ ok (d, after)
    → r ≡ ok after
first_time-ok (raised code) d after h = cc
first_time-ok (ok x) d after h = ap ok (ap (λ (y : Bool × Accounting). y.1) (ok-injective h))

seen_after :
    (ev : StripeEvent) (t after : Accounting) (d : Bool)
    → handle_event ev t ≡ ok (d, after)
    → elem ev.id after.stripe_events ≡ true
unfolding handle_event
seen_after ev t after d h = elim (Bool-cases (elem ev.id t.stripe_events)) [
  | inl old ↦
      ap (λ (x : Bool × Accounting). elem ev.id x.1.stripe_events)
        (sym (ok-injective (rw old at h)))
      ∙ old
  | inr new ↦
      let done =
        first_time-ok (apply_stripe ev.kind ev.object (note_event ev.id t)) d after (rw new at h) in
      ap (elem ev.id) (apply_stripe-events ev.kind ev.object (note_event ev.id t) after done)
      ∙ Mem-elem (Mem-append_right t.stripe_events head)
]

-- After an event that was answered, any event with its identifier is answered as a duplicate and changes nothing.
pub handle_event_twice :
    (ev again : StripeEvent) (t after : Accounting) (d : Bool)
    → handle_event ev t ≡ ok (d, after)
    → again.id ≡ ev.id
    → handle_event again after ≡ ok (true, after)
unfolding handle_event
handle_event_twice ev again t after d h same =
    let old = ap (λ i. elem i after.stripe_events) same ∙ seen_after ev t after d h in rw old refl
