-- ===== src/Samples/Invoices.antt =====
-- A subscription that is paid for, twice announced, and the header of its announcement.
use jobwatch.Prelude.{
  ◌≡◌, refl, true, false, none, some, [], ◌∷◌, List, Mem, Mem-cases, inl, inr, sym, ◌∙◌,
}
use jobwatch.Http.{ok}
use jobwatch.Access.{Text}
use jobwatch.Discovery.{digits}
use jobwatch.Billing.{
  active, trialing, Sub, Accounting, sub_updated, StripeEvent, price_plan, effective, renew,
  apply_stripe, handle_event,
}
use jobwatch.Billing.Plans.{IsPaired, handle_event-IsPaired}
use jobwatch.Billing.Signature.{
  too_far, partition, split, lstrip, rstrip, int_of, read_digits, scan, matches, verify,
}
use jobwatch.Billing.Signature.Accepts.{header_of}

abbrev sub : Sub
sub = record {
  org_id = 7;
  plan = 0;
  stripe_customer_id = some 30;
  stripe_subscription_id = none;
  status = active;
  stripe_price_id = none;
  cancel_at_period_end = false;
  current_period_end = none;
}

abbrev books : Accounting
books = record {
  stripe_events = [];
  subscriptions = sub ∷ [];
  organizations = record { id = 7; plan = 0 } ∷ record { id = 8; plan = 0 } ∷ [];
  plan_limits = record { plan = 2; stripe_price_id = some 90 } ∷ [];
}

abbrev upgrade : StripeEvent
upgrade = record {
  id = 1;
  kind = sub_updated;
  object = record {
    metadata_plan = none;
    metadata_org = none;
    subscription = none;
    customer = some 30;
    price = some 90;
    status = some trialing;
    cancel_at_period_end = false;
    current_period_end = some 100;
  };
}

abbrev upgraded : Accounting
upgraded = record books {
  stripe_events = 1 ∷ [];
  subscriptions =
      record sub {
        plan = 2;
        status = trialing;
        stripe_price_id = some 90;
        current_period_end = some 100;
      }
      ∷ [];
  organizations = record { id = 7; plan = 2 } ∷ record { id = 8; plan = 0 } ∷ [];
}

upgrade_ok : handle_event upgrade books ≡ ok (false, upgraded)
unfolding handle_event apply_stripe price_plan effective renew
upgrade_ok = refl

only :
    (s s' : Sub)
    → Mem s books.subscriptions
    → Mem s' books.subscriptions
    → s.org_id ≡ s'.org_id
    → s ≡ s'
only s s' m m' same = is_sub s m ∙ sym (is_sub s' m')
  where
    is_sub : (x : Sub) → Mem x books.subscriptions → x ≡ sub
    is_sub x mx = elim (Mem-cases mx) [ inl e ↦ e | inr left ↦ elim left [ ] ]

handle_event-IsPaired_example : IsPaired upgraded
handle_event-IsPaired_example =
    handle_event-IsPaired upgrade books upgraded false only (((refl, (refl, tt)), tt)) upgrade_ok

-- A short HMAC that has the first character of its message.
abbrev first_char : Text → Text
first_char [] = []
first_char (c ∷ cs) = 97 ∷ 98 ∷ c ∷ []

abbrev two_sigs : List Text
two_sigs = (99 ∷ 99 ∷ []) ∷ (97 ∷ 98 ∷ 49 ∷ []) ∷ []

accepted : verify first_char 150000000 (123 ∷ []) (header_of 100 two_sigs) ≡ true
unfolding verify digits split partition lstrip rstrip int_of read_digits scan matches too_far
accepted = refl
