-- ===== src/Fleet/Metrics.antt =====
-- `metrics` of cronsentinel/routers/agents.py, and the anomalies that `signals_for_job` of alerting/correlation.py finds in
-- what it stores. Readings are in hundredths of their unit.
use jobwatch.Prelude.{
  ℕ, ◌-◌, ◌≤◌, ◌≡◌, refl, subst, Bool, true, false, ◌&&◌, Option, none, some, inl, inr, List, [],
  ◌∷◌, ◌++◌, ◌==◌, ltb, leb, if◌then◌else◌, any_of, find_first, keep_if, maximum, maximum-Mem,
  coalesce, All, All-Mem, All-append, Bool-cases, Option-cases, arith,
}
use jobwatch.Schedule.{seconds}
use jobwatch.Db.{Uuid}
use jobwatch.Http.{Reply, ok, ◌>>=◌, found_or, past-found, ok-injective}
use jobwatch.Fleet.{AgentPrincipal, ServerRow}

-- A row of host_metrics, whose primary key is (server_id, ts).
pub record HostMetric : Type 0 where
  pub org_id : Uuid
  pub server_id : Uuid
  pub ts : ℕ
  pub cpu_pct : Option ℕ
  pub mem_pct : Option ℕ
  pub load1 : Option ℕ
  pub disk_pct : Option ℕ
  pub inode_pct : Option ℕ
  pub io_wait_ms : Option ℕ

pub record MetricsBody : Type 0 where
  pub ts : Option ℕ
  pub cpu_pct : Option ℕ
  pub mem_pct : Option ℕ
  pub load1 : Option ℕ
  pub disk_pct : Option ℕ
  pub inode_pct : Option ℕ
  pub io_wait_pct : Option ℕ

abbrev pub runs_agent : AgentPrincipal → ServerRow → Bool
runs_agent a s =
    s.org_id == a.org_id && elim s.agent_id [ none ↦ false | some id ↦ id == a.agent_id ]

-- The row of the INSERT: the share of time that the host waits goes into io_wait_ms.
abbrev pub metric_of : ℕ → AgentPrincipal → ServerRow → MetricsBody → HostMetric
metric_of now a srv b = record {
  org_id = a.org_id;
  server_id = srv.id;
  ts = coalesce b.ts now;
  cpu_pct = b.cpu_pct;
  mem_pct = b.mem_pct;
  load1 = b.load1;
  disk_pct = b.disk_pct;
  inode_pct = b.inode_pct;
  io_wait_ms = b.io_wait_pct;
}

-- ON CONFLICT DO NOTHING
abbrev pub put_metric : HostMetric → List HostMetric → List HostMetric
put_metric r ms =
    let more = ms ++ (r ∷ []) in
    if any_of (λ (m : HostMetric). m.server_id == r.server_id && m.ts == r.ts) ms then ms else more

unfoldable pub metrics :
    ℕ → AgentPrincipal → MetricsBody → List ServerRow → List HostMetric → Reply (List HostMetric)
metrics now a b servers ms =
    found_or 409 (find_first (runs_agent a) servers) >>= λ (srv : ServerRow).
    ok (put_metric (metric_of now a srv b) ms)

pub data Anomaly : Type 0 where
  io_wait disk cpu : ℕ → Anomaly

abbrev pub is_recent : ℕ → Uuid → HostMetric → Bool
is_recent now server m = m.server_id == server && leb (now - seconds 900) m.ts

-- The values of a column that are not NULL.
abbrev pub values : (HostMetric → Option ℕ) → List HostMetric → List ℕ
values field [] = []
values field (m ∷ ms) = elim (field m) [ none ↦ values field ms | some v ↦ v ∷ values field ms ]

abbrev pub above : ℕ → (ℕ → Anomaly) → Option ℕ → List Anomaly
above limit what none = []
above limit what (some v) = if ltb limit v then what v ∷ [] else []

-- `anomalies`
unfoldable pub infra : ℕ → Uuid → List HostMetric → List Anomaly
infra now server ms =
    let recent = keep_if (is_recent now server) ms in
    above 10000 io_wait (maximum (values (λ m. m.io_wait_ms) recent))
    ++ (above 9000 disk (maximum (values (λ m. m.disk_pct) recent))
        ++ above 9000 cpu (maximum (values (λ m. m.cpu_pct) recent)))

abbrev pub is_io_wait : Anomaly → Bool
is_io_wait (io_wait v) = true
is_io_wait (disk v) = false
is_io_wait (cpu v) = false

-- At most 100 percent.
abbrev pub is_share : Option ℕ → Bool
is_share none = true
is_share (some v) = leb v 10000

abbrev pub HasShares : List HostMetric → Type 0
HasShares ms = All (λ (m : HostMetric). is_share m.io_wait_ms ≡ true) ms

values-share :
    (ms : List HostMetric) (p : HostMetric → Bool)
    → HasShares ms
    → All (λ v. v ≤ 10000) (values (λ m. m.io_wait_ms) (keep_if p ms))
values-share [] p h = tt
values-share (m ∷ ms) p h = elim (Bool-cases (p m)) [
  | inr f ↦ rw f (values-share ms p h.1)
  | inl t ↦ rw t (with_first m.io_wait_ms _ (values-share ms p h.1) h.0)
]
  where
    with_first :
        (o : Option ℕ) (vs : List ℕ)
        → All (λ v. v ≤ 10000) vs
        → is_share o ≡ true
        → All (λ v. v ≤ 10000) (elim o [ none ↦ vs | some v ↦ v ∷ vs ])
    with_first none vs rest h = rest
    with_first (some v) vs rest h = (ground arith, rest)

quiet_above :
    (limit : ℕ) (what : ℕ → Anomaly) (o : Option ℕ)
    → ((v : ℕ) → is_io_wait (what v) ≡ false)
    → any_of is_io_wait (above limit what o) ≡ false
quiet_above limit what none h = refl
quiet_above limit what (some v) h = elim (Bool-cases (ltb limit v)) [
  | inl t ↦ rw (t, h v) refl
  | inr f ↦ rw f refl
]

quiet_both :
    (xs ys : List Anomaly)
    → any_of is_io_wait xs ≡ false
    → any_of is_io_wait ys ≡ false
    → any_of is_io_wait (xs ++ ys) ≡ false
quiet_both [] ys h k = k
quiet_both (x ∷ xs) ys h k = elim (Bool-cases (is_io_wait x)) [
  | inl t ↦ cc (rw t at h)
  | inr f ↦ rw f (quiet_both xs ys (rw f at h) k)
]

none_above : (vs : List ℕ) → All (λ v. v ≤ 10000) vs → above 10000 io_wait (maximum vs) ≡ []
none_above vs h = elim (Option-cases (maximum vs)) [
  | inl e ↦ rw e refl
  | inr (v, e) ↦
      let low = All-Mem (λ x. x ≤ 10000) h (maximum-Mem vs e) in
      let f : ltb 10000 v ≡ false = ground arith in rw (e, f) refl
]

-- Where the stored times that hosts wait and that of a report that is stored are shares of at most 100 percent, they
-- still are afterwards, and no anomaly of them is found for any server at any time.
pub metrics-no_io_wait :
    (now later : ℕ) (a : AgentPrincipal) (b : MetricsBody) (servers : List ServerRow)
    (ms after : List HostMetric) (server : Uuid)
    → HasShares ms
    → is_share b.io_wait_pct ≡ true
    → metrics now a b servers ms ≡ ok after
    → HasShares after × (any_of is_io_wait (infra later server after) ≡ false)
unfolding metrics infra
metrics-no_io_wait now later a b servers ms after server h share done =
    let (srv, found, end) = past-found 409 (find_first (runs_agent a) servers) _ done in
    let kept : HasShares after =
      subst HasShares (ok-injective end) (put-HasShares (metric_of now a srv b) share) in
    let recent = keep_if (is_recent later server) after in
    let quiet =
      none_above (values (λ m. m.io_wait_ms) recent)
        (values-share after (is_recent later server) kept) in
    (
      kept,
      rw quiet (
          quiet_both (above 9000 disk (maximum (values (λ m. m.disk_pct) recent)))
            (above 9000 cpu (maximum (values (λ m. m.cpu_pct) recent)))
            (quiet_above 9000 disk (maximum (values (λ m. m.disk_pct) recent)) (λ v. refl))
            (quiet_above 9000 cpu (maximum (values (λ m. m.cpu_pct) recent)) (λ v. refl))),
    )
  where
    put-HasShares : (r : HostMetric) → is_share r.io_wait_ms ≡ true → HasShares (put_metric r ms)
    put-HasShares r ok_r =
        elim (Bool-cases
          (any_of (λ (m : HostMetric). m.server_id == r.server_id && m.ts == r.ts) ms)) [
            | inl t ↦ rw t h
            | inr f ↦ rw f (All-append _ ms (r ∷ []) h (ok_r, tt))
          ]
