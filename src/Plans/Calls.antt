-- ===== src/Plans/Calls.antt =====
-- The orders and the subscriptions of plans under every call
-- (apps/backend/src/modules/payments/payments.service.ts).
