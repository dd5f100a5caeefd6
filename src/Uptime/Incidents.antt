-- ===== src/Uptime/Incidents.antt =====
-- What the transitions of ApplyProbe do to the open incidents (store/uptime.go).
use mizu_panel.Prelude.{
  ℕ, suc, ◌+◌, ◌≤◌, ◌<◌, ◌≡◌, refl, ap, Bool, true, false, ◌&&◌, some, List, [], ◌∷◌, ◌++◌, arith,
  ltb, ◌==◌, ==_iff, if◌then◌else◌, count_if, All, All-append,
}
use mizu_panel.Prelude.Result.{ok}
use mizu_panel.Tables.{
  update_where, All-map, All-update_where, count_if-append, count_if-update_where, found_unique,
  find_first-only, count_if-update_where_every, count_if-update_where_none,
  count_if-update_where-le, find_first_holds, found_counted, count_if_none,
}
use mizu_panel.Uptime.Model.{
  IncidentKind, IncidentMessage, UptimeIncident, is_open, is_kind, availability, certificate,
}
use mizu_panel.Uptime.Probes.{
  Changes, active_incident, new_incident, create_incident, closed_incident, is_active_id,
  resolve_incident,
}

-- How many incidents of a monitor and a kind are open.
abbrev pub open_count : ℕ → IncidentKind → List UptimeIncident → ℕ
open_count monitor_id kind = count_if (is_open monitor_id kind)

abbrev pub is_same : ℕ → IncidentKind → ℕ → IncidentKind → Bool
is_same m k m' k' = m' == m && is_kind k k'

-- At most one incident of a kind is open, and the ids are unique.
pub record IsSingle (c : Changes) : Type 0 where
  pub one_open : (m : ℕ) (k : IncidentKind) → open_count m k c.incidents ≤ 1
  pub ids_unique : (i : ℕ) → count_if (λ x. x.id == i) c.incidents ≤ 1
  pub ids_below : All (λ x. x.id < c.next_incident_id) c.incidents

is_kind_refl : (k : IncidentKind) → is_kind k k ≡ true
is_kind_refl availability = refl
is_kind_refl certificate = refl

is_kind_trans :
    (k l : IncidentKind) (i : IncidentKind)
    → is_kind k i ≡ true
    → is_kind l i ≡ true
    → is_kind k l ≡ true
is_kind_trans availability availability i p q = refl
is_kind_trans certificate certificate i p q = refl
is_kind_trans availability certificate availability p q = absurd cc
is_kind_trans availability certificate certificate p q = absurd cc
is_kind_trans certificate availability availability p q = absurd cc
is_kind_trans certificate availability certificate p q = absurd cc

-- An incident is open for one monitor and one kind.
one_key :
    (m m' : ℕ) (k k' : IncidentKind) (x : UptimeIncident)
    → is_same m k m' k' ≡ false
    → is_open m k x ≡ true
    → is_open m' k' x ≡ false
one_key m m' k k' x other h = ground (arith, other, h, is_kind_trans k k' x.kind)

resolve_incident-open :
    (c : Changes) (m : ℕ) (k : IncidentKind) (at : ℕ) {e : UptimeIncident}
    → IsSingle c
    → active_incident m k c ≡ some e
    → open_count m k (resolve_incident c e at).incidents ≡ 0
unfolding resolve_incident
resolve_incident-open c m k at {e} v h =
    count_if-update_where_none (is_open m k) (is_active_id e.id) (closed_incident at) c.incidents
      (λ x t. ground arith)
      (All-map (λ x. is_open m k x ≡ true → x.id ≡ e.id) _ c.incidents
        (λ x f t. ground (arith, f t, t))
        (find_first-only (λ x. x.id ≡ e.id) (is_open m k) c.incidents h (v.one_open m k) refl))

resolve_incident-others :
    (c : Changes) (m m' : ℕ) (k k' : IncidentKind) (at : ℕ) {e : UptimeIncident}
    → IsSingle c
    → active_incident m k c ≡ some e
    → is_same m k m' k' ≡ false
    → open_count m' k' (resolve_incident c e at).incidents ≡ open_count m' k' c.incidents
unfolding resolve_incident
resolve_incident-others c m m' k k' at {e} v h other =
    count_if-update_where_every (is_open m' k') (is_active_id e.id) (closed_incident at) c.incidents
      (All-map (λ x. (x.id == e.id) ≡ true → is_open m k x ≡ true) _ c.incidents
        (λ x f t. ground (arith, one_key m m' k k' x other (f (ground (arith, t)))))
        (found_unique (λ x. is_open m k x ≡ true) (is_open m k) (λ x. x.id == e.id) c.incidents h
          ((==_iff e.id e.id).1 refl) (v.ids_unique e.id)
          (find_first_holds (is_open m k) c.incidents h)))

-- An UPDATE that closes incidents opens none.
pub closed-IsSingle :
    (c : Changes) (p : UptimeIncident → Bool) (at : ℕ)
    → IsSingle c
    → IsSingle (record c { incidents = update_where p (closed_incident at) c.incidents })
closed-IsSingle c p at v = record {
  one_open = λ m k. omega (
    arith,
    v.one_open m k,
    count_if-update_where-le (is_open m k) p (closed_incident at) c.incidents
        (All-map _ _ c.incidents (λ x l. (λ t o. absurd (ground arith))) v.ids_below),
  );
  ids_unique = λ i. omega (
    arith,
    v.ids_unique i,
    count_if-update_where (λ x. x.id == i) p (closed_incident at) c.incidents (λ x t. refl),
  );
  ids_below =
      All-update_where _ _ p (closed_incident at) c.incidents (λ x l. ground arith) v.ids_below;
}

resolve_incident-IsSingle :
    (c : Changes) (e : UptimeIncident) (at : ℕ) → IsSingle c → IsSingle (resolve_incident c e at)
unfolding resolve_incident
resolve_incident-IsSingle c e at v =
    let w = closed-IsSingle c (is_active_id e.id) at v in
    record { one_open = w.one_open; ids_unique = w.ids_unique; ids_below = w.ids_below }

kind_eq : (k l : IncidentKind) → is_kind k l ≡ true → k ≡ l
kind_eq availability availability h = refl
kind_eq certificate certificate h = refl
kind_eq availability certificate h = cc
kind_eq certificate availability h = cc

same_count :
    (m m' : ℕ) (k k' : IncidentKind) (xs : List UptimeIncident)
    → is_same m k m' k' ≡ true
    → open_count m' k' xs ≡ open_count m k xs
same_count m m' k k' xs h =
    let e : m' ≡ m = (==_iff m' m).0 (ground arith) in
    let f : k ≡ k' = kind_eq k k' (ground arith) in rw (e, f)

-- What a successful insert did.
create_incident_inv :
    (c c' : Changes) (m : ℕ) (k : IncidentKind) (message : IncidentMessage) (at : ℕ)
    → create_incident c m k message at ≡ ok c'
    → (open_count m k c.incidents ≡ 0)
      × (c'.incidents ≡ c.incidents ++ new_incident c m k message at ∷ [])
      × (c'.next_incident_id ≡ suc c.next_incident_id)
unfolding create_incident
create_incident_inv c c' m k message at h = ground arith

new_open :
    (c : Changes) (m m' : ℕ) (k k' : IncidentKind) (message : IncidentMessage) (at : ℕ)
    → is_open m' k' (new_incident c m k message at) ≡ is_same m' k' m k
new_open c m m' k k' message at = ground arith

is_same_sym : (m m' : ℕ) (k k' : IncidentKind) → is_same m' k' m k ≡ is_same m k m' k'
is_same_sym m m' availability availability = ground arith
is_same_sym m m' availability certificate = ground arith
is_same_sym m m' certificate availability = ground arith
is_same_sym m m' certificate certificate = ground arith

create_incident-open :
    (c c' : Changes) (m m' : ℕ) (k k' : IncidentKind) (message : IncidentMessage) (at : ℕ)
    → create_incident c m k message at ≡ ok c'
    → open_count m' k' c'.incidents
      ≡ open_count m' k' c.incidents + (if is_same m k m' k' then 1 else 0)
create_incident-open c c' m m' k k' message at h =
    let (_, same, _) = create_incident_inv c c' m k message at h in
    ground (
      arith,
      ap (open_count m' k') same,
      count_if-append (is_open m' k') c.incidents (new_incident c m k message at ∷ []),
      new_open c m m' k k' message at,
      is_same_sym m m' k k',
    )

create_incident-IsSingle :
    (c c' : Changes) (m : ℕ) (k : IncidentKind) (message : IncidentMessage) (at : ℕ)
    → IsSingle c
    → create_incident c m k message at ≡ ok c'
    → IsSingle c'
create_incident-IsSingle c c' m k message at v h =
    let (closed, same, next) = create_incident_inv c c' m k message at h in
    record {
      one_open = λ m' k'. ground (
        arith,
        v.one_open m' k',
        closed,
        create_incident-open c c' m m' k k' message at h,
        same_count m m' k k' c.incidents,
      );
      ids_unique = λ i. ground (
        arith,
        v.ids_unique i,
        ap (count_if (λ x. x.id == i)) same,
        count_if-append (λ x. x.id == i) c.incidents (new_incident c m k message at ∷ []),
        count_if_none (λ x. x.id == c.next_incident_id) c.incidents
            (All-map _ _ c.incidents (λ x l. ground arith) v.ids_below),
      );
      ids_below =
          rw (same, next)
            (All-append (λ x. x.id < suc c.next_incident_id) c.incidents _
              (All-map _ _ c.incidents (λ x l. omega arith) v.ids_below) (omega arith, tt));
    }

-- What a step did to the open incidents of one key.
pub record Moves (m : ℕ) (k : IncidentKind) (after : Bool) (c c' : Changes) : Type 0 where
  pub single : IsSingle c'
  pub opened : ltb 0 (open_count m k c'.incidents) ≡ after
  pub others :
      (m' : ℕ) (k' : IncidentKind)
      → is_same m k m' k' ≡ false
      → open_count m' k' c'.incidents ≡ open_count m' k' c.incidents

pub found_open :
    (c : Changes) (m : ℕ) (k : IncidentKind) {e : UptimeIncident}
    → active_incident m k c ≡ some e
    → 1 ≤ open_count m k c.incidents
found_open c m k h =
    found_counted (is_open m k) (is_open m k) c.incidents h
      (find_first_holds (is_open m k) c.incidents h)

pub stays :
    (m : ℕ) (k : IncidentKind) (c : Changes)
    → IsSingle c
    → Moves m k (ltb 0 (open_count m k c.incidents)) c c
stays m k c v = record { single = v; opened = refl; others = λ m' k' _. refl }

-- The incident that is found is resolved.
pub resolves :
    (m : ℕ) (k : IncidentKind) (at : ℕ) (c : Changes) {e : UptimeIncident}
    → IsSingle c
    → active_incident m k c ≡ some e
    → Moves m k false c (resolve_incident c e at)
resolves m k at c {e} v h = record {
  single = resolve_incident-IsSingle c e at v;
  opened = ground (arith, resolve_incident-open c m k at v h);
  others = λ m' k' other. resolve_incident-others c m m' k k' at v h other;
}

pub creates :
    (m : ℕ) (k : IncidentKind) (message : IncidentMessage) (at : ℕ) (c c' : Changes)
    → IsSingle c
    → create_incident c m k message at ≡ ok c'
    → Moves m k true c c'
creates m k message at c c' v h = record {
  single = create_incident-IsSingle c c' m k message at v h;
  opened =
      ground (
        arith,
        create_incident-open c c' m m k k message at h,
        is_kind_refl k,
        (==_iff m m).1 refl,
      );
  others = λ m' k' other. ground (arith, other, create_incident-open c c' m m' k k' message at h);
}
