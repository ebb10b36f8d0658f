-- ===== src/Payments/Rating.antt =====
-- Reading, rating and the review flag: `markRead` and `resolveReview` of
-- apps/backend/src/modules/services/admin-services.service.ts, `rate` and `markRead` of services.service.ts.
use finskool_monorepo.Base.{
  ℕ, Bool, true, false, not, ◌&&◌, ◌||◌, ◌==◌, is_none, is_id, if◌then◌else◌, Option, none, some,
  find_first, count_where, update_where, Result, ok, err, ErrorCode, AppError,
}
use finskool_monorepo.Payments.{
  ServiceClosedReason, ServiceRequest, ServiceEventType, PayStore, PayEnv, is_closed, find_request,
}
use finskool_monorepo.Payments.Close.{is_owned}
use finskool_monorepo.Payments.Desk.{AdminViewer, request_not_found, get_request, note_event}

-- Only the assignee's reading clears the badge.
unfoldable pub mark_read : PayEnv → AdminViewer → ℕ → PayStore → Result ℕ × PayStore
mark_read env a id s = elim (find_request id s) [
  | none ↦ (err request_not_found, s)
  | some request ↦
      if not (is_id request.assigned_admin_id a.id) || request.admin_unread_count == 0
      then (ok request.admin_unread_count, s)
      else (
        ok 0,
        let t = env.others s in
            record t {
              requests =
                  update_where (λ r. r.id == id) (λ r. record r { admin_unread_count = 0 })
                    t.requests;
            },
      )
]

-- The member's own badge.
unfoldable pub mark_read_by_member : PayEnv → ℕ → ℕ → PayStore → Result ℕ × PayStore
mark_read_by_member env user_id id s = elim (find_first (is_owned user_id id) s.requests) [
  | none ↦ (err request_not_found, s)
  | some request ↦ if request.user_unread_count == 0 then (ok 0, s) else (
    ok 0,
    let t = env.others s in
        record t {
          requests =
              update_where (λ r. r.id == id) (λ r. record r { user_unread_count = 0 }) t.requests;
        },
  )
]

abbrev pub is_review : ℕ → ServiceRequest → Bool
is_review id r = r.id == id && r.requires_review

unfoldable pub resolve_review :
    PayEnv → AdminViewer → ℕ → PayStore → Result ServiceRequest × PayStore
resolve_review env a id s = elim (find_request id s) [
  | none ↦ (err request_not_found, s)
  | some request ↦
      if not request.requires_review
      then (ok request, s)
      else (let t = env.others s in
          let after : PayStore =
            if count_where (is_review id) t.requests == 0
            then t
            else note_event id ServiceEventType.review_resolved a.id (record t {
              requests =
                  update_where (is_review id) (λ r. record r { requires_review = false })
                    t.requests;
            }) in
          (get_request id after, after))
]

abbrev pub is_completed : Option ServiceClosedReason → Bool
is_completed (some ServiceClosedReason.completed) = true
is_completed _ = false

abbrev pub is_rateable : ℕ → ℕ → ServiceRequest → Bool
is_rateable user_id id r =
    is_owned user_id id r && is_closed r.status && is_completed r.closed_reason && is_none r.rating

abbrev pub rate_answer : Bool → ServiceRequest → Result ServiceRequest
rate_answer rated r =
    if rated
    then ok r
    else if not (is_closed r.status) || not (is_completed r.closed_reason)
    then err (AppError.conflict ErrorCode.service_not_completed)
    else err (AppError.conflict ErrorCode.already_rated)

-- The conditional update is the lock.
unfoldable pub rate : ℕ → ℕ → ℕ → PayStore → Result ServiceRequest × PayStore
rate user_id id rating s =
    let rated = not (count_where (is_rateable user_id id) s.requests == 0) in
    let after = record s {
      requests =
          update_where (is_rateable user_id id) (λ r. record r { rating = some rating }) s.requests;
    } in
    (
      elim (find_first (is_owned user_id id) after.requests) [
        | none ↦ err request_not_found
        | some r ↦ rate_answer rated r
      ],
      after,
    )
