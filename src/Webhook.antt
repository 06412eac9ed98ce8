-- ===== src/Webhook.antt =====
-- internal/webhook: the admission gate, and the signers of exceptions and promotions.
pub mod ModelRef
pub mod Reads
pub mod Evaluate
pub mod Gate
pub mod Exception
pub mod Promotion
