-- ===== src/Provider.antt =====
-- provider/: the adapters to the model services.
pub mod SseFilter
