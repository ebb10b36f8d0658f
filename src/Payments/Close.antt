-- ===== src/Payments/Close.antt =====
-- A request that ends without a payment: `cancel` of
-- apps/backend/src/modules/services/services.service.ts and the sweep of
-- apps/backend/src/lib/service-quote-expiry.ts.
use finskool_monorepo.Base.{
  ℕ, ◌+◌, ◌-◌, ◌*◌, Bool, true, false, not, ◌&&◌, ◌==◌, ltb, leb, if◌then◌else◌, Option, none, some,
  List, [], ◌∷◌, ◌++◌, take, find_first, find_many, count_where, update_where, Result, ok, err,
  ErrorCode, AppError,
}
use finskool_monorepo.Payments.{
  ServiceRequestStatus, ServiceClosedReason, ServiceQuoteStatus, ServiceRequest, ServiceQuote,
  ServiceEventType, SystemMessage, PayStore, PayEnv, is_active, is_quote_sent,
}

abbrev pub is_cancellable : ServiceRequestStatus → Bool
is_cancellable ServiceRequestStatus.requested = true
is_cancellable ServiceRequestStatus.quote_sent = true
is_cancellable _ = false

abbrev pub refuse_cancel : ServiceRequestStatus → AppError
refuse_cancel ServiceRequestStatus.paid = AppError.conflict ErrorCode.service_not_cancellable
refuse_cancel _ = AppError.conflict ErrorCode.service_closed

abbrev pub is_owned : ℕ → ℕ → ServiceRequest → Bool
is_owned user_id request_id r = r.id == request_id && r.user_id == user_id

-- The transaction of `cancel`: whether it closed the request.
unfoldable pub cancel_in_tx : PayEnv → ℕ → ℕ → PayStore → Bool × PayStore
cancel_in_tx env user_id request_id s =
    let open_row : ServiceRequest → Bool =
      λ r. is_owned user_id request_id r && is_cancellable r.status in
    if count_where open_row s.requests == 0 then (false, s) else (
      true,
      record s {
        requests =
            update_where open_row
              (λ r. record r {
                status = ServiceRequestStatus.closed;
                closed_reason = some ServiceClosedReason.cancelled_by_member;
                closed_at = some env.now;
              })
              s.requests;
        quotes =
            update_where (λ q. q.request_id == request_id && is_active q.status)
              (λ q. record q { status = ServiceQuoteStatus.cancelled }) s.quotes;
        events =
            s.events
            ++ record {
              request_id = request_id;
              kind = ServiceEventType.cancelled;
              actor_id = some user_id;
            }
              ∷ [];
      },
    )

-- The request as it is now, or why it could not be cancelled.
unfoldable pub cancel_answer : Bool → ℕ → ℕ → PayStore → Result ServiceRequest
cancel_answer done user_id request_id s =
    elim (find_first (is_owned user_id request_id) s.requests) [
      | none ↦ err (AppError.not_found ErrorCode.no_code)
      | some current ↦ if done then ok current else err (refuse_cancel current.status)
    ]

unfoldable pub cancel : PayEnv → ℕ → ℕ → PayStore → Result ServiceRequest × PayStore
unfolding cancel_in_tx cancel_answer
cancel env user_id request_id s = elim (find_first (is_owned user_id request_id) s.requests) [
  | none ↦ (err (AppError.not_found ErrorCode.no_code), s)
  | some request ↦
      if not (is_cancellable request.status)
      then (err (refuse_cancel request.status), s)
      else (let (done, after) = cancel_in_tx env user_id request_id (env.others s) in
          (cancel_answer done user_id request_id after, after))
]

-- ─── Quotes past their expiry ───────────────────────────────────────────────

abbrev pub payment_in_progress_window_ms : ℕ
payment_in_progress_window_ms = 15 * 60 * 1000

abbrev pub not_started_lately : ℕ → Option ℕ → Bool
not_started_lately cutoff none = true
not_started_lately cutoff (some at) = ltb at cutoff

-- `dueWhere`
unfoldable pub is_due : ℕ → ServiceQuote → Bool
is_due now q =
    is_active q.status
    && leb q.expires_at now
    && not_started_lately (now - payment_in_progress_window_ms) q.payment_started_at

abbrev pub batch_size : ℕ
batch_size = 200

-- One quote, in its transaction, if it is still due.
unfoldable pub expire_one : PayEnv → ℕ → ℕ → PayStore → PayStore
unfolding is_due
expire_one env quote_id request_id s =
    let due : ServiceQuote → Bool = λ q. q.id == quote_id && is_due env.now q in
    if count_where due s.quotes == 0 then s else record s {
      quotes = update_where due (λ q. record q { status = ServiceQuoteStatus.expired }) s.quotes;
      requests =
          update_where (λ r. r.id == request_id && is_quote_sent r.status)
            (λ r. record r {
              status = ServiceRequestStatus.requested;
              last_message_at = env.now;
              user_unread_count = r.user_unread_count + 1;
              admin_unread_count = r.admin_unread_count + 1;
            })
            s.requests;
      events =
          s.events
          ++ record {
            request_id = request_id;
            kind = ServiceEventType.quote_expired;
            actor_id = none;
          }
            ∷ [];
      messages = s.messages ++ (request_id, SystemMessage.quote_lapsed) ∷ [];
    }

unfoldable pub expire_all : PayEnv → List ServiceQuote → PayStore → PayStore
unfolding expire_one
expire_all env [] s = s
expire_all env (q ∷ qs) s = expire_all env qs (expire_one env q.id q.request_id (env.others s))

unfoldable pub expire_service_quotes : PayEnv → PayStore → PayStore
unfolding expire_all
expire_service_quotes env s =
    expire_all env (take batch_size (find_many (is_due env.now) s.quotes)) s
