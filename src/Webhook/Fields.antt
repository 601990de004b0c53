-- ===== src/Webhook/Fields.antt =====
-- Which fields a payload of internal/webhook/webhook.go holds.
