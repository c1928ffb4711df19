-- ===== src/Billing.antt =====
-- cronsentinel/routers/billing.py: `webhook`, what Stripe's events do to subscriptions and plans. JSON is read by an
-- argument; an event whose items have no price is not modelled. Plans, prices, customers and identifiers are numbers.
pub mod Signature
pub mod Plans
pub mod Once
use jobwatch.Prelude.{
  ℕ, Bool, true, false, ◌&&◌, ◌||◌, not, Option, none, some, List, [], ◌∷◌, ◌++◌, ◌==◌,
  if◌then◌else◌, any_of, find_first, update_where, coalesce, is_some, elem,
}
use jobwatch.Db.{Uuid}
use jobwatch.Http.{Reply, ok, raised, ◌>>=◌, raise_if, found_or}

pub data SubStatus : Type 0 where
  active trialing past_due canceled : SubStatus
  other : ℕ → SubStatus

-- A row of subscriptions.
pub record Sub : Type 0 where
  pub org_id : Uuid
  pub plan : ℕ
  pub stripe_customer_id : Option ℕ
  pub stripe_subscription_id : Option ℕ
  pub status : SubStatus
  pub stripe_price_id : Option ℕ
  pub cancel_at_period_end : Bool
  pub current_period_end : Option ℕ

pub record Org : Type 0 where
  pub id : Uuid
  pub plan : ℕ

pub record PlanLimit : Type 0 where
  pub plan : ℕ
  pub stripe_price_id : Option ℕ

-- The tables; of stripe_events the identifiers.
pub record Accounting : Type 0 where
  pub stripe_events : List ℕ
  pub subscriptions : List Sub
  pub organizations : List Org
  pub plan_limits : List PlanLimit

abbrev pub free : ℕ
free = 0

-- ev["type"], and the fields of ev["data"]["object"] that the branches read; `none` is an absent field.
pub data EventType : Type 0 where
  completed sub_updated sub_deleted payment_failed unknown_type : EventType

pub record StripeObject : Type 0 where
  pub metadata_plan : Option ℕ
  pub metadata_org : Option Uuid
  pub subscription : Option ℕ
  pub customer : Option ℕ
  pub price : Option ℕ
  pub status : Option SubStatus
  pub cancel_at_period_end : Bool
  pub current_period_end : Option ℕ

pub record StripeEvent : Type 0 where
  pub id : ℕ
  pub kind : EventType
  pub object : StripeObject

abbrev pub has_customer : ℕ → Sub → Bool
has_customer cu s = elim s.stripe_customer_id [ none ↦ false | some c ↦ c == cu ]

-- checkout.session.completed
unfoldable pub complete : Uuid → ℕ → Option ℕ → Accounting → Accounting
complete org plan sid t = record t {
  subscriptions =
      update_where (λ (s : Sub). s.org_id == org)
        (λ s. record s { stripe_subscription_id = sid; plan = plan; status = active })
        t.subscriptions;
  organizations =
      update_where (λ (o : Org). o.id == org) (λ o. record o { plan = plan }) t.organizations;
}

-- SELECT plan FROM plan_limits WHERE stripe_price_id=:p
abbrev pub has_price : ℕ → PlanLimit → Bool
has_price price l = elim l.stripe_price_id [ none ↦ false | some p ↦ p == price ]

abbrev pub plan_of : Option PlanLimit → Option ℕ
plan_of none = none
plan_of (some l) = some l.plan

unfoldable pub price_plan : Option ℕ → List PlanLimit → Option ℕ
price_plan none limits = none
price_plan (some price) limits = plan_of (find_first (has_price price) limits)

abbrev pub is_paying : SubStatus → Bool
is_paying active = true
is_paying trialing = true
is_paying _ = false

-- `eff`
unfoldable pub effective : Option ℕ → SubStatus → ℕ
effective plan status = if is_paying status then coalesce plan free else free

-- Whether a subscription of the customer belongs to the organisation.
abbrev pub is_customer_org : ℕ → List Sub → Org → Bool
is_customer_org cu subs o = any_of (λ (s : Sub). has_customer cu s && s.org_id == o.id) subs

abbrev pub set_sub : SubStatus → ℕ → StripeObject → Sub → Sub
set_sub status eff obj s = record s {
  status = status;
  plan = eff;
  stripe_price_id = obj.price;
  cancel_at_period_end = obj.cancel_at_period_end;
  current_period_end = obj.current_period_end;
}

-- The two UPDATEs of customer.subscription.*
unfoldable pub renew : ℕ → SubStatus → ℕ → StripeObject → Accounting → Accounting
renew cu status eff obj t =
    let subs : List Sub = update_where (has_customer cu) (set_sub status eff obj) t.subscriptions in
    record t {
      subscriptions = subs;
      organizations =
          update_where (is_customer_org cu subs) (λ o. record o { plan = eff }) t.organizations;
    }

unfoldable pub fail_payment : ℕ → Accounting → Accounting
fail_payment cu t = record t {
  subscriptions =
      update_where (has_customer cu) (λ s. record s { status = past_due }) t.subscriptions;
}

abbrev pub status_of : EventType → StripeObject → Option SubStatus
status_of sub_updated obj = obj.status
status_of _ obj = some canceled

-- customer.subscription.*: a missing field is a KeyError.
abbrev pub change_sub : EventType → StripeObject → Accounting → Reply Accounting
change_sub kind obj t = found_or 500 (status_of kind obj) >>= λ status.
    found_or 500 obj.customer >>= λ cu.
    ok (renew cu status (effective (price_plan obj.price t.plan_limits) status) obj t)

-- The branches.
unfoldable pub apply_stripe : EventType → StripeObject → Accounting → Reply Accounting
unfolding complete price_plan effective renew fail_payment
apply_stripe completed obj t = found_or 400 obj.metadata_plan >>= λ plan.
    found_or 400 obj.metadata_org >>= λ org. ok (complete org plan obj.subscription t)
apply_stripe sub_updated obj t = change_sub sub_updated obj t
apply_stripe sub_deleted obj t = change_sub sub_deleted obj t
apply_stripe payment_failed obj t = found_or 500 obj.customer >>= λ cu. ok (fail_payment cu t)
apply_stripe unknown_type obj t = ok t

-- INSERT INTO stripe_events ... ON CONFLICT DO NOTHING, and whether the answer says `duplicate`.
abbrev pub note_event : ℕ → Accounting → Accounting
note_event id t = record t { stripe_events = t.stripe_events ++ (id ∷ []) }

abbrev pub first_time : Reply Accounting → Reply (Bool × Accounting)
first_time (raised code) = raised code
first_time (ok t) = ok (false, t)

unfoldable pub handle_event : StripeEvent → Accounting → Reply (Bool × Accounting)
unfolding apply_stripe
handle_event ev t =
    let fresh = first_time (apply_stripe ev.kind ev.object (note_event ev.id t)) in
    if elem ev.id t.stripe_events then ok (true, t) else fresh
