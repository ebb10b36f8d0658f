-- ===== src/Payments/Run.antt =====
-- The calls on a request and its quotes, one after the other: the webhook route, the routes of
-- services.routes.ts for the member and for the support team, and the expiry sweep.
use finskool_monorepo.Base.{ℕ, Bool, List, [], ◌∷◌}
use finskool_monorepo.Payments.{PayStore, PayEnv}
use finskool_monorepo.Payments.Start.{create_order}
use finskool_monorepo.Payments.Close.{cancel, expire_service_quotes}
use finskool_monorepo.Payments.Desk.{AdminViewer, claim, reassign, close}
use finskool_monorepo.Payments.Rating.{mark_read, mark_read_by_member, resolve_review, rate}
use finskool_monorepo.Payments.Quotes.{SendQuote, send_quote}
use finskool_monorepo.Payments.Webhook.{WebhookPayload, handle_webhook, verify}

pub data PayCall : Type 0 where
  begin_payment : (user_id request_id quote_id billing : ℕ) → PayCall
  confirm_payment : (signature_valid : Bool) (user_id request_id order_id payment_id : ℕ) → PayCall
  deliver_webhook : (signature_valid : Bool) (event_id : ℕ) → WebhookPayload → PayCall
  cancel_request : (user_id request_id : ℕ) → PayCall
  expire_quotes : PayCall
  quote_request : AdminViewer → (request_id : ℕ) → SendQuote → PayCall
  claim_request close_request clear_review read_by_admin : AdminViewer → (request_id : ℕ) → PayCall
  reassign_request : AdminViewer → (request_id to_admin_id : ℕ) → PayCall
  read_by_member : (user_id request_id : ℕ) → PayCall
  rate_request : (user_id request_id rating : ℕ) → PayCall

unfoldable pub serve : PayEnv → PayCall → PayStore → PayStore
serve env (begin_payment u r q b) s = (create_order env u r q b s).1
serve env (confirm_payment v u r o p) s = (verify env v u r o p s).1
serve env (deliver_webhook v e p) s = (handle_webhook env v e p s).1
serve env (cancel_request u r) s = (cancel env u r s).1
serve env expire_quotes s = expire_service_quotes env s
serve env (quote_request a r dto) s = (send_quote env a r dto s).1
serve env (claim_request a r) s = (claim env a r s).1
serve env (reassign_request a r to_id) s = (reassign env a r to_id s).1
serve env (close_request a r) s = (close env a r s).1
serve env (clear_review a r) s = (resolve_review env a r s).1
serve env (read_by_admin a r) s = (mark_read env a r s).1
serve env (read_by_member u r) s = (mark_read_by_member env u r s).1
serve env (rate_request u r n) s = (rate u r n s).1

unfoldable pub serve_all : List (PayEnv × PayCall) → PayStore → PayStore
unfolding serve
serve_all [] s = s
serve_all ((env, c) ∷ cs) s = serve_all cs (serve env c s)
