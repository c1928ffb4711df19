-- ===== src/Engine/Extends.antt =====
-- How an incident of alerting/engine.py, alerting/correlation.py and routers/incidents.py goes on, whoever acts on it.
use jobwatch.Prelude.{
  ℕ, ◌≤◌, ◌≡◌, inl, inr, refl, ap, ◌∙◌, Bool, true, false, Option, none, some, List, [], ◌∷◌, ◌++◌,
  arith, Bool-cases, elem, update_where, Mem, Mem-append_left,
}
use jobwatch.Db.{Uuid}
use jobwatch.Access.{Principal, or_else}
use jobwatch.Engine.{
  Signals, Incident, IncidentStatus, opened, acknowledged, resolved, is_resolved, is_open_for,
  join_incident, open_new, attach, add_job, new_incident,
}
use jobwatch.Engine.Handle.{auto_resolve, resolve}
use jobwatch.Engine.Joins.{elem-append_last}
use jobwatch.Engine.Keeps.{IsKept}
use jobwatch.Engine.Responders.{is_opened, can_ack, acknowledge, can_resolve, close, ResolveIn}

abbrev pub status_rank : IncidentStatus → ℕ
status_rank opened = 0
status_rank acknowledged = 1
status_rank resolved = 2

-- What a resolved incident keeps for good.
pub record IsSettled (x y : Incident) : Type 0 where
  pub status : y.status ≡ x.status
  pub acknowledged_at : y.acknowledged_at ≡ x.acknowledged_at
  pub resolved_at : y.resolved_at ≡ x.resolved_at
  pub resolution : y.resolution ≡ x.resolution
  pub root_cause : y.root_cause ≡ x.root_cause
  pub responder_ids : y.responder_ids ≡ x.responder_ids

-- A later state of an incident: it is the same one, its status does not go back, and no job, no responder and no time of
-- acknowledgement is lost; once it is resolved it stays as it was resolved.
pub record Follows (x y : Incident) : Type 0 where
  pub row :
      (y.id ≡ x.id)
      × (y.org_id ≡ x.org_id)
      × (y.started_at ≡ x.started_at)
      × (y.rule_id ≡ x.rule_id)
  pub ranks : status_rank x.status ≤ status_rank y.status
  pub jobs : (j : Uuid) → elem j x.affected_job_ids ≡ true → elem j y.affected_job_ids ≡ true
  pub responders : (r : Option Uuid) → Mem r x.responder_ids → Mem r y.responder_ids
  pub acknowledged_at : (t : ℕ) → x.acknowledged_at ≡ some t → y.acknowledged_at ≡ some t
  pub settled : is_resolved x.status ≡ true → IsSettled x y

-- Every incident goes on, in its place, and new ones come behind.
abbrev pub Extends : List Incident → List Incident → Type 0
Extends [] ys = Unit
Extends (x ∷ xs) [] = ⊥
Extends (x ∷ xs) (y ∷ ys) = Follows x y × Extends xs ys

is_settled :
    (x y : Incident) → is_resolved x.status ≡ false → is_resolved x.status ≡ true → IsSettled x y
is_settled x y f t = cc

Follows-refl : (x : Incident) → Follows x x
Follows-refl x = record {
  row = (refl, refl, refl, refl);
  ranks = omega arith;
  jobs = λ j h. h;
  responders = λ r m. m;
  acknowledged_at = λ t e. e;
  settled = λ t. record {
    status = refl;
    acknowledged_at = refl;
    resolved_at = refl;
    resolution = refl;
    root_cause = refl;
    responder_ids = refl;
  };
}

Follows-trans : {x y z : Incident} → Follows x y → Follows y z → Follows x z
Follows-trans {x} {y} {z} f g = record {
  row = (g.row.0 ∙ f.row.0, g.row.1 ∙ f.row.1, g.row.2 ∙ f.row.2, g.row.3 ∙ f.row.3);
  ranks = omega (arith, f.ranks, g.ranks);
  jobs = λ j h. g.jobs j (f.jobs j h);
  responders = λ r m. g.responders r (f.responders r m);
  acknowledged_at = λ t e. g.acknowledged_at t (f.acknowledged_at t e);
  settled = λ t.
      let s = f.settled t in
      let u = g.settled (ap is_resolved s.status ∙ t) in
      record {
        status = u.status ∙ s.status;
        acknowledged_at = u.acknowledged_at ∙ s.acknowledged_at;
        resolved_at = u.resolved_at ∙ s.resolved_at;
        resolution = u.resolution ∙ s.resolution;
        root_cause = u.root_cause ∙ s.root_cause;
        responder_ids = u.responder_ids ∙ s.responder_ids;
      };
}

pub Extends-refl : (xs : List Incident) → Extends xs xs
Extends-refl [] = tt
Extends-refl (x ∷ xs) = (Follows-refl x, Extends-refl xs)

pub Extends-trans : (xs ys zs : List Incident) → Extends xs ys → Extends ys zs → Extends xs zs
Extends-trans [] ys zs f g = tt
Extends-trans (x ∷ xs) [] zs f g = absurd f
Extends-trans (x ∷ xs) (y ∷ ys) [] f g = absurd g
Extends-trans (x ∷ xs) (y ∷ ys) (z ∷ zs) f g =
    (Follows-trans f.0 g.0, Extends-trans xs ys zs f.1 g.1)

Extends-append : (xs ys : List Incident) → Extends xs (xs ++ ys)
Extends-append [] ys = tt
Extends-append (x ∷ xs) ys = (Follows-refl x, Extends-append xs ys)

pub Extends-update_where :
    (q : Incident → Bool) (f : Incident → Incident) (xs : List Incident)
    → ((i : Incident) → q i ≡ true → Follows i (f i))
    → Extends xs (update_where q f xs)
Extends-update_where q f [] h = tt
Extends-update_where q f (x ∷ xs) h = elim (Bool-cases (q x)) [
  | inl t ↦ rw t (h x t, Extends-update_where q f xs h)
  | inr n ↦ rw n (Follows-refl x, Extends-update_where q f xs h)
]

elem-add_job_kept :
    (j job : Uuid) (ids : List Uuid) → elem j ids ≡ true → elem j (add_job job ids) ≡ true
elem-add_job_kept j job ids h = elim (Bool-cases (elem job ids)) [
  | inl t ↦ rw t h
  | inr n ↦ rw n (elem-append_last j job ids ∙ ground arith)
]

join-Follows : (job : Uuid) (sig : Signals) (i : Incident) → Follows i (join_incident job sig i)
join-Follows job sig i = record {
  row = (refl, refl, refl, refl);
  ranks = omega arith;
  jobs = λ j h. elem-add_job_kept j job i.affected_job_ids h;
  responders = λ r m. m;
  acknowledged_at = λ t e. e;
  settled = λ t. record {
    status = refl;
    acknowledged_at = refl;
    resolved_at = refl;
    resolution = refl;
    root_cause = refl;
    responder_ids = refl;
  };
}

status_rank_top : (s : IncidentStatus) → status_rank s ≤ 2
status_rank_top opened = omega arith
status_rank_top acknowledged = omega arith
status_rank_top resolved = omega arith

resolve-Follows :
    (now : ℕ) (i : Incident) → is_resolved i.status ≡ false → Follows i (resolve now i)
resolve-Follows now i going = record {
  row = (refl, refl, refl, refl);
  ranks = status_rank_top i.status;
  jobs = λ j h. h;
  responders = λ r m. m;
  acknowledged_at = λ t e. e;
  settled = is_settled i (resolve now i) going;
}

pub close-Follows :
    (now id : ℕ) (p : Principal) (body : ResolveIn) (i : Incident)
    → can_resolve p id i ≡ true
    → Follows i (close now body i)
close-Follows now id p body i can = record {
  row = (refl, refl, refl, refl);
  ranks = status_rank_top i.status;
  jobs = λ j h. h;
  responders = λ r m. m;
  acknowledged_at = λ t e. e;
  settled = is_settled i (close now body i) (ground arith);
}

acknowledge-kept : (o : Option ℕ) (now t : ℕ) → o ≡ some t → or_else o (some now) ≡ some t
acknowledge-kept none now t e = cc
acknowledge-kept (some s) now t e = e

pub opened_early :
    (s : IncidentStatus) → is_opened s ≡ true → (status_rank s ≤ 1) × (is_resolved s ≡ false)
opened_early opened h = (omega arith, refl)
opened_early acknowledged h = cc
opened_early resolved h = cc

pub acknowledge-Follows :
    (now id : ℕ) (p : Principal) (i : Incident)
    → can_ack p id i ≡ true
    → Follows i (acknowledge p now i)
acknowledge-Follows now id p i can =
    let early = opened_early i.status (ground arith) in
    record {
      row = (refl, refl, refl, refl);
      ranks = early.0;
      jobs = λ j h. h;
      responders = λ r m. Mem-append_left (p.user_id ∷ []) m;
      acknowledged_at = λ t e. acknowledge-kept i.acknowledged_at now t e;
      settled = is_settled i (acknowledge p now i) early.1;
    }

pub Extends-IsKept :
    (base : List Incident) (org : Uuid) (now : ℕ) (sig : Signals) (good : Bool)
    → IsKept (λ next incidents. Extends base incidents) org now sig good
Extends-IsKept base org now sig good = record {
  opens = λ job rule a e free alone.
      unfold open_new in
      Extends-trans base a.incidents
        (a.incidents ++ (new_incident org now job rule sig a.next_incident ∷ [])) e
        (Extends-append a.incidents (new_incident org now job rule sig a.next_incident ∷ []));
  joins = λ incident job a e free.
      unfold attach in
      Extends-trans base a.incidents _ e
        (Extends-update_where _ _ a.incidents (λ i t. join-Follows job sig i));
  resolves = λ job a t e.
      unfold auto_resolve in
      Extends-trans base a.incidents _ e (
        Extends-update_where (is_open_for org job) (resolve now) a.incidents
          (λ i t. resolve-Follows now i (open_for job i t)));
}
  where
    open_for :
        (job : Uuid) (i : Incident) → is_open_for org job i ≡ true → is_resolved i.status ≡ false
    open_for job i t = unfold is_open_for in ground arith
