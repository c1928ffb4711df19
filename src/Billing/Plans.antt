-- ===== src/Billing/Plans.antt =====
-- The plan of an organisation and that of its subscription, as the events of routers/billing.py keep them.
use jobwatch.Prelude.{
  ℕ, ◌≡◌, ◌∙◌, ap, sym, refl, subst, Bool, true, false, ◌&&◌, ◌||◌, not, Option, List, [], ◌∷◌,
  ◌==◌, ==_iff, inl, inr, All, All-Mem, Mem, head, tail, Bool-cases, and-true, update_if,
  update_where, Mem-update_where, update_where-Mem, any_of-Mem, Mem-any_of, elem, arith,
}
use jobwatch.Db.{Uuid}
use jobwatch.Http.{Reply, ok, raised, past-found, ok-injective}
use jobwatch.Billing.{
  SubStatus, active, past_due, Sub, Org, Accounting, EventType, completed, sub_updated, sub_deleted,
  payment_failed, unknown_type, StripeObject, StripeEvent, has_customer, complete, price_plan,
  effective, is_customer_org, set_sub, renew, fail_payment, status_of, change_sub, apply_stripe,
  note_event, first_time, handle_event,
}

-- The organisation of a subscription has its plan.
abbrev pub pays : Sub → Org → Bool
pays s o = not (s.org_id == o.id) || o.plan == s.plan

abbrev pub IsPaired : Accounting → Type 0
IsPaired t = All (λ s. All (λ o. pays s o ≡ true) t.organizations) t.subscriptions

Mem-All {ℓ κ} : {A : Type ℓ} (P : A → Type κ) (xs : List A) → ((x : A) → Mem x xs → P x) → All P xs
Mem-All P [] h = tt
Mem-All P (x ∷ xs) h = (h x head, Mem-All P xs (λ y m. h y (tail m)))

pays-at :
    (t : Accounting) (s : Sub) (o : Org)
    → IsPaired t
    → Mem s t.subscriptions
    → Mem o t.organizations
    → pays s o ≡ true
pays-at t s o h ms mo =
    All-Mem (λ x. pays s x ≡ true) (All-Mem (λ x. All (λ y. pays x y ≡ true) t.organizations) h ms)
      mo

-- What the rows of the two UPDATEs have to keep.
rows-IsPaired :
    (p : Sub → Bool) (f : Sub → Sub) (q : Org → Bool) (g : Org → Org) (t after : Accounting)
    → after.subscriptions ≡ update_where p f t.subscriptions
    → after.organizations ≡ update_where q g t.organizations
    → IsPaired t
    → ((s : Sub) (o : Org)
        → Mem s t.subscriptions
        → Mem o t.organizations
        → pays s o ≡ true
        → pays (update_if p f s) (update_if q g o) ≡ true)
    → IsPaired after
rows-IsPaired p f q g t after subs orgs h keep = Mem-All _ after.subscriptions (λ s' ms'.
    Mem-All _ after.organizations (λ o' mo'.
      let (s, ms, es) = Mem-update_where p f t.subscriptions (subst (λ l. Mem s' l) subs ms') in
      let (o, mo, eo) = Mem-update_where q g t.organizations (subst (λ l. Mem o' l) orgs mo') in
      ap (λ x. pays x o') es
      ∙ ap (pays (update_if p f s)) eo
      ∙ keep s o ms mo (pays-at t s o h ms mo)))

pays-same : (s : Sub) (o : Org) → o.plan ≡ s.plan → pays s o ≡ true
pays-same s o e =
    let same = (==_iff o.plan s.plan).1 e in
    elim (Bool-cases (s.org_id == o.id)) [ inl t ↦ rw (t, same) refl | inr f ↦ rw f refl ]

pays-apart : (s : Sub) (o : Org) → s.org_id == o.id ≡ false → pays s o ≡ true
pays-apart s o f = rw f refl

apart : (x y z : ℕ) → x == z ≡ true → y == z ≡ false → x == y ≡ false
apart x y z a b = ground arith

apart' : (x y z : ℕ) → x == z ≡ false → y == z ≡ true → x == y ≡ false
apart' x y z a b = ground arith

complete-IsPaired :
    (org : Uuid) (plan : ℕ) (sid : Option ℕ) (t : Accounting)
    → IsPaired t
    → IsPaired (complete org plan sid t)
unfolding complete
complete-IsPaired org plan sid t h =
    rows-IsPaired (λ s. s.org_id == org)
      (λ s. record s { stripe_subscription_id = sid; plan = plan; status = active })
      (λ o. o.id == org) (λ o. record o { plan = plan }) t (complete org plan sid t) refl refl h
      (λ s o ms mo old.
        let s' : Sub = record s { stripe_subscription_id = sid; plan = plan; status = active } in
        let o' : Org = record o { plan = plan } in
        elim (Bool-cases (s.org_id == org)) [
          | inl a ↦ elim (Bool-cases (o.id == org)) [
            | inl b ↦ rw (a, b) (pays-same s' o' refl)
            | inr b ↦ rw (a, b) (pays-apart s' o (apart s.org_id o.id org a b))
          ]
          | inr a ↦ elim (Bool-cases (o.id == org)) [
            | inl b ↦ rw (a, b) (pays-apart s o' (apart' s.org_id o.id org a b))
            | inr b ↦ rw (a, b) old
          ]
        ])

-- An organisation has one subscription at most: the primary key.
abbrev pub HasOneEach : List Sub → Type 0
HasOneEach subs = (s s' : Sub) → Mem s subs → Mem s' subs → s.org_id ≡ s'.org_id → s ≡ s'

renew-IsPaired :
    (cu : ℕ) (status : SubStatus) (eff : ℕ) (obj : StripeObject) (t : Accounting)
    → HasOneEach t.subscriptions
    → IsPaired t
    → IsPaired (renew cu status eff obj t)
unfolding renew
renew-IsPaired cu status eff obj t one h =
    let subs = update_where (has_customer cu) (set_sub status eff obj) t.subscriptions in
    rows-IsPaired (has_customer cu) (set_sub status eff obj) (is_customer_org cu subs)
      (λ o. record o { plan = eff }) t (renew cu status eff obj t) refl refl h
      (λ s o ms mo old.
        let s' : Sub = set_sub status eff obj s in
        let o' : Org = record o { plan = eff } in
        elim (Bool-cases (has_customer cu s)) [
          | inl a ↦ elim (Bool-cases (is_customer_org cu subs o)) [
            | inl b ↦ rw (a, b) (pays-same s' o' refl)
            | inr b ↦ rw (a, b) (pays-apart s' o (not_its s o ms a b))
          ]
          | inr a ↦ elim (Bool-cases (is_customer_org cu subs o)) [
            | inl b ↦ rw (a, b) (pays-apart s o' (not_of s o ms a b))
            | inr b ↦ rw (a, b) old
          ]
        ])
  where
    not_its :
        (s : Sub) (o : Org)
        → Mem s t.subscriptions
        → has_customer cu s ≡ true
        → is_customer_org cu
            (update_where (has_customer cu) (set_sub status eff obj) t.subscriptions)
            o
          ≡ false
        → s.org_id == o.id ≡ false
    not_its s o ms a b = elim (Bool-cases (s.org_id == o.id)) [
      | inr f ↦ f
      | inl e ↦
          let m = update_where-Mem (has_customer cu) (set_sub status eff obj) ms in
          let there =
            Mem-any_of (λ (x : Sub). has_customer cu x && x.org_id == o.id) (rw a at m)
              (rw (a, e) refl) in
          cc
    ]

    not_of :
        (s : Sub) (o : Org)
        → Mem s t.subscriptions
        → has_customer cu s ≡ false
        → is_customer_org cu
            (update_where (has_customer cu) (set_sub status eff obj) t.subscriptions)
            o
          ≡ true
        → s.org_id == o.id ≡ false
    not_of s o ms a b = elim (Bool-cases (s.org_id == o.id)) [
      | inr f ↦ f
      | inl e ↦
          let (x, mx, both) = any_of-Mem (λ (x : Sub). has_customer cu x && x.org_id == o.id) _ b in
          let (cust, org) = and-true (has_customer cu x) (x.org_id == o.id) both in
          let (s2, m2, ex) =
            Mem-update_where (has_customer cu) (set_sub status eff obj) t.subscriptions mx in
          elim (Bool-cases (has_customer cu s2)) [
            | inr f ↦ let same : x ≡ s2 = ex ∙ rw f refl in cc
            | inl u ↦
                let its : x.org_id ≡ s2.org_id = ap (λ (y : Sub). y.org_id) ex ∙ rw u refl in
                let same =
                  one s s2 ms m2
                    ((==_iff s.org_id o.id).0 e ∙ sym ((==_iff x.org_id o.id).0 org) ∙ its) in
                cc (sym a ∙ ap (has_customer cu) same ∙ u)
          ]
    ]

fail_payment-IsPaired : (cu : ℕ) (t : Accounting) → IsPaired t → IsPaired (fail_payment cu t)
unfolding fail_payment
fail_payment-IsPaired cu t h = Mem-All _ (fail_payment cu t).subscriptions (λ s' ms'.
    Mem-All _ t.organizations (λ o mo.
      let (s, ms, es) =
        Mem-update_where (has_customer cu) (λ (x : Sub). record x { status = past_due })
          t.subscriptions ms' in
      let old = pays-at t s o h ms mo in
      ap (λ x. pays x o) es
      ∙ elim (Bool-cases (has_customer cu s)) [ inl u ↦ rw u old | inr f ↦ rw f old ]))

change_sub-IsPaired :
    (kind : EventType) (obj : StripeObject) (t after : Accounting)
    → HasOneEach t.subscriptions
    → IsPaired t
    → change_sub kind obj t ≡ ok after
    → IsPaired after
change_sub-IsPaired kind obj t after one h done =
    let (status, e, rest) = past-found 500 (status_of kind obj) _ done in
    let (cu, e', end) = past-found 500 obj.customer _ rest in
    subst IsPaired (ok-injective end)
      (renew-IsPaired cu status (effective (price_plan obj.price t.plan_limits) status) obj t one h)

apply_stripe-IsPaired :
    (kind : EventType) (obj : StripeObject) (t after : Accounting)
    → HasOneEach t.subscriptions
    → IsPaired t
    → apply_stripe kind obj t ≡ ok after
    → IsPaired after
unfolding apply_stripe
apply_stripe-IsPaired completed obj t after one h done =
    let (plan, e, rest) = past-found 400 obj.metadata_plan _ done in
    let (org, e', end) = past-found 400 obj.metadata_org _ rest in
    subst IsPaired (ok-injective end) (complete-IsPaired org plan obj.subscription t h)
apply_stripe-IsPaired sub_updated obj t after one h done =
    change_sub-IsPaired sub_updated obj t after one h done
apply_stripe-IsPaired sub_deleted obj t after one h done =
    change_sub-IsPaired sub_deleted obj t after one h done
apply_stripe-IsPaired payment_failed obj t after one h done =
    let (cu, e, end) = past-found 500 obj.customer _ done in
    subst IsPaired (ok-injective end) (fail_payment-IsPaired cu t h)
apply_stripe-IsPaired unknown_type obj t after one h done = subst IsPaired (ok-injective done) h

-- Every event of Stripe that is answered, whatever its type, leaves each organisation on the plan of its subscription,
-- if an organisation has at most one.
pub handle_event-IsPaired :
    (ev : StripeEvent) (t after : Accounting) (duplicate : Bool)
    → HasOneEach t.subscriptions
    → IsPaired t
    → handle_event ev t ≡ ok (duplicate, after)
    → IsPaired after
unfolding handle_event
handle_event-IsPaired ev t after duplicate one h done =
    elim (Bool-cases (elem ev.id t.stripe_events)) [
      | inl old ↦ subst (λ (x : Bool × Accounting). IsPaired x.1) (ok-injective (rw old at done)) h
      | inr new ↦
          answered (apply_stripe ev.kind ev.object (note_event ev.id t))
            (λ x e. apply_stripe-IsPaired ev.kind ev.object (note_event ev.id t) x one h e)
            (rw new at done)
    ]
  where
    answered :
        (r : Reply Accounting)
        → ((x : Accounting) → r ≡ ok x → IsPaired x)
        → first_time r ≡ ok (duplicate, after)
        → IsPaired after
    answered (raised code) keep e = cc
    answered (ok x) keep e =
        subst (λ (y : Bool × Accounting). IsPaired y.1) (ok-injective e) (keep x refl)
