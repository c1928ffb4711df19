-- ===== src/Engine/Unlisted.antt =====
-- `list_incidents` of routers/incidents.py once a caller without a user has acknowledged an incident: `array_append` puts
-- NULL among its responders, and IncidentOut of schemas.py wants identifiers.
use jobwatch.Prelude.{
  ℕ, zero, suc, ◌≤◌, ◌≡◌, inl, inr, refl, sym, ap, ◌∙◌, subst, true, not, none, List, [], ◌∷◌,
  arith, Bool-cases, ltb, any_of, keep_if, length, take, update_where, count_where, sort_desc,
  insert_desc, Mem, head, tail, Mem-cases, Mem-append_right, keep_if-Mem, sort_desc-Mem, any_of-Mem,
  Mem-any_of, update_where-Mem, is_some, not-false,
}
use jobwatch.Http.{ok, raised, past-guard, past-part, ok-injective}
use jobwatch.Access.{Principal, developer, needs}
use jobwatch.Engine.{Incident}
use jobwatch.Engine.Extends.{Extends, Follows}
use jobwatch.Engine.History.{Reach, Reach-Extends}
use jobwatch.Engine.Responders.{
  Desk, can_ack, acknowledge, ack, in_list, page, page_limit, has_null, list_incidents,
}

length-insert_desc :
    (key : Incident → ℕ) (i : Incident) (xs : List Incident)
    → length (insert_desc key i xs) ≡ suc (length xs)
length-insert_desc key i [] = refl
length-insert_desc key i (x ∷ xs) =
    let ih = length-insert_desc key i xs in
    elim (Bool-cases (ltb (key i) (key x))) [ inl t ↦ rw t (ap suc ih) | inr f ↦ rw f refl ]

length-sort_desc : (key : Incident → ℕ) (xs : List Incident) → length (sort_desc key xs) ≡ length xs
length-sort_desc key [] = refl
length-sort_desc key (x ∷ xs) =
    length-insert_desc key x (sort_desc key xs) ∙ ap suc (length-sort_desc key xs)

take-Mem :
    (n : ℕ) (xs : List Incident) {x : Incident} → length xs ≤ n → Mem x xs → Mem x (take n xs)
take-Mem n [] le m = elim m [ ]
take-Mem zero (y ∷ ys) le m = absurd (omega (arith, le))
take-Mem (suc n) (y ∷ ys) le m = elim (Mem-cases m) [
  | inl e ↦ rw e head
  | inr m' ↦ tail (take-Mem n ys (omega (arith, le)) m')
]

-- A row that was there has gone on.
Extends-Mem :
    (xs ys : List Incident) {i : Incident}
    → Extends xs ys
    → Mem i xs
    → (y : Incident) × Mem y ys × Follows i y
Extends-Mem [] ys e m = elim m [ ]
Extends-Mem (x ∷ xs) [] e m = absurd e
Extends-Mem (x ∷ xs) (y ∷ ys) e m = elim (Mem-cases m) [
  | inl q ↦ (y, head, subst (λ k. Follows k y) (sym q) e.0)
  | inr m' ↦ let (w, k, f) = Extends-Mem xs ys e.1 m' in (w, tail k, f)
]

-- An acknowledgement leaves a row of the organisation whose last responder is the caller.
ack-row :
    (now id : ℕ) (p : Principal) (d e : Desk)
    → ack now p id d ≡ ok e
    → (i : Incident) × Mem i e.alerts.incidents
      × (i.org_id ≡ p.org_id)
      × Mem p.user_id i.responder_ids
unfolding ack
ack-row now id p d e done =
    let (_, _, rest) = past-part (needs developer p) _ done in
    let (found, end) = past-guard (not (any_of (can_ack p id) d.alerts.incidents)) 409 _ rest in
    let (i, m, t) =
      any_of-Mem (can_ack p id) d.alerts.incidents
        (not-false (any_of (can_ack p id) d.alerts.incidents) found) in
    let done_row : Mem (acknowledge p now i)
        (update_where (can_ack p id) (acknowledge p now) d.alerts.incidents) =
      subst (λ x. Mem x (update_where (can_ack p id) (acknowledge p now) d.alerts.incidents))
        (rw t refl) (update_where-Mem (can_ack p id) (acknowledge p now) m) in
    (
      acknowledge p now i,
      subst (λ (x : Desk). Mem (acknowledge p now i) x.alerts.incidents) (ok-injective end)
          done_row,
      ground arith,
      Mem-append_right i.responder_ids head,
    )

-- A page that has room for all rows has this one.
page-Mem :
    (q : Principal) (limit : ℕ) (xs : List Incident) {i : Incident}
    → count_where (in_list q none) xs ≤ page_limit limit
    → i.org_id ≡ q.org_id
    → Mem i xs
    → Mem i (page q none limit xs)
page-Mem q limit xs {i} le same m =
    take-Mem (page_limit limit) _
      (subst (λ n. n ≤ page_limit limit)
        (sym (length-sort_desc (λ (k : Incident). k.started_at) (keep_if (in_list q none) xs))) le)
      (sort_desc-Mem (λ (k : Incident). k.started_at) i _
        (keep_if-Mem (in_list q none) xs m (rw same (ground arith))))

-- Once an API key has acknowledged an incident, whatever happens to it then, its organisation's list of incidents is
-- answered with 500, as long as the page has room for all of them.
pub ack-unlisted :
    (now id limit : ℕ) (p q : Principal) (d e f : Desk)
    → p.user_id ≡ none
    → ack now p id d ≡ ok e
    → Reach e f
    → q.org_id ≡ p.org_id
    → count_where (in_list q none) f.alerts.incidents ≤ page_limit limit
    → list_incidents q none limit f ≡ raised 500
unfolding list_incidents
ack-unlisted now id limit p q d e f key done later same room =
    let (i, m, own, null) = ack-row now id p d e done in
    let (j, k, goes) = Extends-Mem e.alerts.incidents f.alerts.incidents (Reach-Extends later) m in
    let there = page-Mem q limit f.alerts.incidents room (goes.row.1 ∙ own ∙ sym same) k in
    let null' : Mem none j.responder_ids =
      goes.responders none (subst (λ r. Mem r i.responder_ids) key null) in
    let bad : has_null j ≡ true = Mem-any_of (λ r. not (is_some r)) null' refl in
    rw (Mem-any_of has_null there bad) refl
