-- ===== src/Payments/Desk.antt =====
-- The support team's hold on a service request: claiming, reassigning, closing, reading and clearing the
-- review flag of apps/backend/src/modules/services/admin-services.service.ts, with the member's rating
-- and reading of services.service.ts. What is announced after the commit is left out.
use finskool_monorepo.Base.{
  ℕ, Bool, true, false, not, ◌&&◌, ◌||◌, ◌==◌, is_none, is_id, if◌then◌else◌, includes, Option,
  none, some, [], ◌∷◌, ◌++◌, count_where, update_where, Result, ok, err, ErrorCode, AppError,
}
use finskool_monorepo.Access.{get_all_admin_ids}
use finskool_monorepo.Payments.{
  ServiceRequestStatus, ServiceClosedReason, ServiceQuoteStatus, ServiceRequest, ServiceEventType,
  PayStore, PayEnv, is_closed, is_paid_request, is_active, find_request,
}
use finskool_monorepo.Payments.Close.{is_cancellable}

-- `AdminViewer`
pub record AdminViewer : Type 0 where
  pub id : ℕ
  pub is_super_admin : Bool

abbrev pub request_not_found : AppError
request_not_found = AppError.not_found ErrorCode.no_code

abbrev pub service_closed : AppError
service_closed = AppError.conflict ErrorCode.service_closed

abbrev pub assigned_to_other : AppError
assigned_to_other = AppError.forbidden ErrorCode.service_assigned_to_other

-- `assertCanAct`
abbrev pub can_act : AdminViewer → ServiceRequest → Bool
can_act a r = a.is_super_admin || is_none r.assigned_admin_id || is_id r.assigned_admin_id a.id

-- `getRequest`
abbrev pub get_request : ℕ → PayStore → Result ServiceRequest
get_request id s = elim (find_request id s) [ none ↦ err request_not_found | some r ↦ ok r ]

abbrev pub note_event : ℕ → ServiceEventType → ℕ → PayStore → PayStore
note_event id kind actor_id s = record s {
  events = s.events ++ record { request_id = id; kind = kind; actor_id = some actor_id } ∷ [];
}

abbrev pub is_free : ℕ → ServiceRequest → Bool
is_free id r = r.id == id && is_none r.assigned_admin_id && not (is_closed r.status)

abbrev pub give_to : ℕ → ServiceRequest → ServiceRequest
give_to admin_id r = record r { assigned_admin_id = some admin_id }

-- Assigns the request if it is still unassigned and open, and says whether it did.
unfoldable pub claim_in_tx : ℕ → ℕ → PayStore → Bool × PayStore
claim_in_tx id admin_id s = if count_where (is_free id) s.requests == 0 then (false, s) else (
  true,
  note_event id (ServiceEventType.assigned admin_id) admin_id
      (record s { requests = update_where (is_free id) (give_to admin_id) s.requests }),
)

-- A lost race is an error, unless it is the caller who won it.
abbrev pub claim_answer : Bool → AdminViewer → ℕ → PayStore → Result ServiceRequest
claim_answer claimed a id s = elim (find_request id s) [
  | none ↦ err request_not_found
  | some current ↦
      if claimed || is_id current.assigned_admin_id a.id
      then ok current
      else err (AppError.conflict ErrorCode.service_already_assigned)
]

unfoldable pub claim : PayEnv → AdminViewer → ℕ → PayStore → Result ServiceRequest × PayStore
unfolding claim_in_tx
claim env a id s = elim (find_request id s) [
  | none ↦ (err request_not_found, s)
  | some request ↦
      if is_closed request.status
      then (err service_closed, s)
      else if is_id request.assigned_admin_id a.id
      then (ok request, s)
      else (let (claimed, after) = claim_in_tx id a.id (env.others s) in
          (claim_answer claimed a id after, after))
]

abbrev pub reassign_kind : ℕ → Option ℕ → ServiceEventType
reassign_kind to_admin_id none = ServiceEventType.assigned to_admin_id
reassign_kind to_admin_id (some from) = ServiceEventType.reassigned to_admin_id from

abbrev pub is_open_row : ℕ → ServiceRequest → Bool
is_open_row id r = r.id == id && not (is_closed r.status)

-- The kind of the event goes by the request as it was read before the transaction.
unfoldable pub reassign_in_tx : AdminViewer → ℕ → ServiceRequest → PayStore → Bool × PayStore
reassign_in_tx a to_admin_id request s =
    if count_where (is_open_row request.id) s.requests == 0 then (false, s) else (
      true,
      note_event request.id (reassign_kind to_admin_id request.assigned_admin_id) a.id (record s {
        requests = update_where (is_open_row request.id) (give_to to_admin_id) s.requests;
      }),
    )

unfoldable pub reassign : PayEnv → AdminViewer → ℕ → ℕ → PayStore → Result ServiceRequest × PayStore
unfolding reassign_in_tx
reassign env a id to_admin_id s =
    if not a.is_super_admin
    then (err (AppError.forbidden ErrorCode.super_admin_required), s)
    else elim (find_request id s) [
      | none ↦ (err request_not_found, s)
      | some request ↦
          if is_closed request.status
          then (err service_closed, s)
          else if is_id request.assigned_admin_id to_admin_id
          then (ok request, s)
          else if not (includes to_admin_id (get_all_admin_ids env.directory))
          then (err (AppError.bad_request ErrorCode.admin_not_eligible), s)
          else (let (changed, after) = reassign_in_tx a to_admin_id request (env.others s) in
              (if changed then get_request id after else err service_closed, after))
    ]

-- ─── Closing ────────────────────────────────────────────────────────────────

abbrev pub close_as : ℕ → ServiceClosedReason → ServiceRequest → ServiceRequest
close_as now reason r = record r {
  status = ServiceRequestStatus.closed;
  closed_at = some now;
  admin_unread_count = 0;
  closed_reason = some reason;
}

abbrev pub is_mine : AdminViewer → ℕ → ServiceRequest → Bool
is_mine a id r = r.id == id && (a.is_super_admin || is_id r.assigned_admin_id a.id)

-- The rows that `w` picks are closed, and the quote that still waits is withdrawn.
unfoldable pub close_rows :
    PayEnv → AdminViewer → ℕ → ServiceClosedReason → (ServiceRequest → Bool) → PayStore → PayStore
close_rows env a id reason w s = note_event id (ServiceEventType.closed reason) a.id (record s {
  requests = update_where w (close_as env.now reason) s.requests;
  quotes =
      update_where (λ q. q.request_id == id && is_active q.status)
        (λ q. record q { status = ServiceQuoteStatus.cancelled }) s.quotes;
})

-- Paid becomes completed, and anything else open declined, by the status at the moment of closing.
unfoldable pub close_by_status : PayEnv → AdminViewer → ℕ → PayStore → Bool × PayStore
unfolding close_rows
close_by_status env a id s =
    let paid_row : ServiceRequest → Bool = λ r. is_mine a id r && is_paid_request r.status in
    let waiting : ServiceRequest → Bool = λ r. is_mine a id r && is_cancellable r.status in
    if not (count_where paid_row s.requests == 0)
    then (true, close_rows env a id ServiceClosedReason.completed paid_row s)
    else if not (count_where waiting s.requests == 0)
    then (true, close_rows env a id ServiceClosedReason.declined waiting s)
    else (false, s)

abbrev pub claim_if_free : ServiceRequest → ℕ → ℕ → PayStore → PayStore
claim_if_free request id admin_id s =
    if is_none request.assigned_admin_id then (claim_in_tx id admin_id s).1 else s

abbrev pub close_answer : Bool → ℕ → PayStore → Result ServiceRequest
close_answer done id s = elim (find_request id s) [
  | none ↦ err request_not_found
  | some current ↦
      if done
      then ok current
      else if is_closed current.status
      then err service_closed
      else err assigned_to_other
]

unfoldable pub close : PayEnv → AdminViewer → ℕ → PayStore → Result ServiceRequest × PayStore
unfolding claim_in_tx close_by_status
close env a id s = elim (find_request id s) [
  | none ↦ (err request_not_found, s)
  | some request ↦
      if is_closed request.status
      then (err service_closed, s)
      else if is_none request.assigned_admin_id && not a.is_super_admin
      then (err (AppError.conflict ErrorCode.service_not_claimed), s)
      else if not (can_act a request)
      then (err assigned_to_other, s)
      else (let (done, after) =
            close_by_status env a id (claim_if_free request id a.id (env.others s)) in
          (close_answer done id after, after))
]
