-- ===== src/Guests/Kept.antt =====
-- What the clean-up of abandoned reservations and a new hold leave.
use rent_a_car_v.Base.{
  ℕ, ◌+◌, suc, ◌≡◌, ◌≤◌, ◌∙◌, refl, inl, inr, true, Option, some, none, List, [], ◌∷◌, keep, length,
  arith, Bool-cases, Option-cases, Result-cases, Result,
}
use rent_a_car_v.Lifecycle.{expired}
use rent_a_car_v.Database.{Database, Reservation}
use rent_a_car_v.Bookings.Ranges.{apart}
use rent_a_car_v.StatusChange.{change_status}
use rent_a_car_v.StatusChange.Recorded.{IsRecorded, change_status-IsRecorded}
use rent_a_car_v.StatusChange.Quiet.{change_status_row}
use rent_a_car_v.Finalization.{
  Options, FinalizeError, Outcome, Surroundings, is_stripe_session_paid,
}
use rent_a_car_v.Finalization.Complete.{system_change}
use rent_a_car_v.Finalization.Core.{
  finalize_reservation_core, finalize_reservation_by_stripe_session_id,
}
use rent_a_car_v.Finalization.Kept.{core_keeps, finalize_reservation_core-IsRecorded}
use rent_a_car_v.Holds.{run_expiry, of_abandoned, mark_abandoned_reservations, expire_rows}
use rent_a_car_v.Holds.Recorded.{run_expiry-IsRecorded}
use rent_a_car_v.Holds.Allowed.{Allowed, change_status-Allowed, run_expiry-Allowed}
use rent_a_car_v.Holds.Steps.{Allowed-IsKept}
use rent_a_car_v.Guests.{
  Remote, SessionStatus, session_open, session_expired, session_complete, Tally, ends_hold,
  retrieve_by, reconcile_options, count_finalized, count_expired, reconcile_unpaid,
  reconcile_session, reconcile_each, reconcile_processing_stripe_reservations,
  clean_up_abandoned_reservations, is_candidate, is_settled,
}

-- The tables agree with the constraints, with the history and with each other.
abbrev pub Sound : Database → Type 0
Sound db = Allowed db × IsRecorded db × (apart db.blocks ≡ true)

finalize-Sound :
    (remote : Remote) (s : Surroundings) (session : ℕ) (o : Options) (db : Database)
    → Sound db
    → Sound (finalize_reservation_by_stripe_session_id (retrieve_by remote) s session o db).1
unfolding finalize_reservation_by_stripe_session_id
finalize-Sound remote s session o db (a, r, f) =
    elim (Result-cases (finalize_reservation_core (retrieve_by remote) s session o db)) [
      | inr (x, e) ↦ rw (finalize_reservation_by_stripe_session_id, e) (a, r, f)
      | inl ((result, db'), e) ↦
          let (r', f') =
            finalize_reservation_core-IsRecorded (retrieve_by remote) s session o db db' result r f
              e in
          rw (finalize_reservation_by_stripe_session_id, e)
            (core_keeps Allowed-IsKept (retrieve_by remote) s session o db db' result a e, r', f')
    ]

expired-Sound :
    (now i : ℕ) (t : Tally) (db : Database)
    → Sound db
    → Sound
        (count_expired db (change_status (system_change i expired (some (ends_hold now))) db) t).1
expired-Sound now i t db (a, r, f) =
    let c = system_change i expired (some (ends_hold now)) in
    elim (Result-cases (change_status c db)) [
      | inr (x, e) ↦ rw e (a, r, f)
      | inl ((b, db'), e) ↦ rw e (
        change_status-Allowed c db db' b a e,
        change_status-IsRecorded c db db' b r e,
        rw ((change_status_row c db db' b refl e).0) f,
      )
    ]

unpaid-Sound :
    (now : ℕ) (r : Reservation) (status : SessionStatus) (t : Tally) (db : Database)
    → Sound db
    → Sound (reconcile_unpaid now r status t db).1
unfolding reconcile_unpaid
unpaid-Sound now r session_open t db s = s
unpaid-Sound now r session_expired t db s = expired-Sound now r.id t db s
unpaid-Sound now r session_complete t db s = s

session-Sound :
    (remote : Remote) (s : Surroundings) (now : ℕ) (r : Reservation) (session : Option ℕ)
    (t : Tally) (db : Database)
    → Sound db
    → Sound (reconcile_session remote s now r session t db).1
unfolding reconcile_session
session-Sound remote s now r none t db h = h
session-Sound remote s now r (some session) t db h = elim (Option-cases (remote session)) [
  | inl n ↦ rw (reconcile_session, n) h
  | inr (x, n) ↦ elim (Bool-cases (is_stripe_session_paid x.checkout.payment_status)) [
    | inl y ↦
        rw (reconcile_session, n, y) (finalize-Sound remote s session (reconcile_options r x) db h)
    | inr m ↦ rw (reconcile_session, n, m) (unpaid-Sound now r x.status t db h)
  ]
]

each-Sound :
    (remote : Remote) (at : ℕ → Surroundings) (now : ℕ) (rs : List Reservation) (t : Tally)
    (db : Database)
    → Sound db
    → Sound (reconcile_each remote at now rs t db).1
unfolding reconcile_each
each-Sound remote at now [] t db h = h
each-Sound remote at now (r ∷ rs) t db h =
    let next = reconcile_session remote (at r.id) now r r.stripe_session_id t db in
    each-Sound remote at now rs next.0 next.1
      (session-Sound remote (at r.id) now r r.stripe_session_id t db h)

-- What the clean-up counts, after `n` of the candidates.
abbrev Counts : ℕ → Tally → Type 0
Counts n t = (t.expired + t.finalized + t.kept) ≤ n

unpaid-Counts :
    (now n : ℕ) (r : Reservation) (status : SessionStatus) (t : Tally) (db : Database)
    → Counts n t
    → Counts (suc n) (reconcile_unpaid now r status t db).0
      × ((reconcile_unpaid now r status t db).0.checked ≡ t.checked)
unfolding reconcile_unpaid
unpaid-Counts now n r session_open t db h = (ground arith, refl)
unpaid-Counts now n r session_complete t db h = (ground arith, refl)
unpaid-Counts now n r session_expired t db h =
    elim (Result-cases (change_status (system_change r.id expired (some (ends_hold now))) db)) [
      | inr (x, e) ↦ rw e (ground arith, refl)
      | inl ((b, db'), e) ↦ rw e (ground arith, refl)
    ]

finalized-Counts :
    (n : ℕ) (p : Result FinalizeError Outcome × Database) (t : Tally)
    → Counts n t
    → Counts (suc n) (count_finalized p t).0 × ((count_finalized p t).0.checked ≡ t.checked)
finalized-Counts n (result, db) t h = elim (Bool-cases (is_settled result)) [
  | inl y ↦ rw y (ground arith, refl)
  | inr m ↦ rw m (ground arith, refl)
]

session-Counts :
    (remote : Remote) (s : Surroundings) (now n : ℕ) (r : Reservation) (session : Option ℕ)
    (t : Tally) (db : Database)
    → Counts n t
    → Counts (suc n) (reconcile_session remote s now r session t db).0
      × ((reconcile_session remote s now r session t db).0.checked ≡ t.checked)
unfolding reconcile_session
session-Counts remote s now n r none t db h = (ground arith, refl)
session-Counts remote s now n r (some session) t db h = elim (Option-cases (remote session)) [
  | inl m ↦ rw (reconcile_session, m) (ground arith, refl)
  | inr (x, m) ↦ elim (Bool-cases (is_stripe_session_paid x.checkout.payment_status)) [
    | inl y ↦
        rw (reconcile_session, m, y)
          (finalized-Counts n
            (finalize_reservation_by_stripe_session_id (retrieve_by remote) s session
              (reconcile_options r x) db)
            t h)
    | inr k ↦ rw (reconcile_session, m, k) (unpaid-Counts now n r x.status t db h)
  ]
]

each-Counts :
    (remote : Remote) (at : ℕ → Surroundings) (now n : ℕ) (rs : List Reservation) (t : Tally)
    (db : Database)
    → Counts n t
    → Counts (length rs + n) (reconcile_each remote at now rs t db).0
      × ((reconcile_each remote at now rs t db).0.checked ≡ t.checked)
unfolding reconcile_each
each-Counts remote at now n [] t db h = (ground arith, refl)
each-Counts remote at now n (r ∷ rs) t db h =
    let next = reconcile_session remote (at r.id) now r r.stripe_session_id t db in
    let (c, same) = session-Counts remote (at r.id) now n r r.stripe_session_id t db h in
    let (d, same') = each-Counts remote at now (suc n) rs next.0 next.1 c in
    (ground (arith, d), same' ∙ same)

-- The clean-up of abandoned reservations keeps the tables sound (distinct ids, holds that the constraints
-- allow, an exact history, a calendar without overlaps), whatever the provider answers for each session;
-- and it counts each candidate at most once, as expired, finalized or kept.
pub clean_up_abandoned_reservations-Sound :
    (active_session_ids : List ℕ) (by_update : List Reservation → List Reservation)
    (remote : Remote) (at : ℕ → Surroundings) (now : ℕ) (db : Database)
    → Sound db
    → let (tally, db') =
        clean_up_abandoned_reservations active_session_ids by_update remote at now db in
      Sound db' × (tally.expired + tally.finalized + tally.kept ≤ tally.checked)
unfolding clean_up_abandoned_reservations reconcile_processing_stripe_reservations run_expiry
    mark_abandoned_reservations expire_rows
clean_up_abandoned_reservations-Sound ids by_update remote at now db (a, r, f) =
    let db' = run_expiry (of_abandoned ids) now db in
    let candidates = by_update (keep (is_candidate now) db'.reservations) in
    let t : Tally = record { checked = length candidates; expired = 0; finalized = 0; kept = 0 } in
    let (c, same) = each-Counts remote at now 0 candidates t db' (ground arith) in
    (
      each-Sound remote at now candidates t db' (
        run_expiry-Allowed (of_abandoned ids) now db a,
        (run_expiry-IsRecorded (of_abandoned ids) now db a.0 r).1,
        f,
      ),
      ground (arith, c, same),
    )
