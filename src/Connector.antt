-- ===== src/Connector.antt =====
-- connectors/mysql: the outbox table and the worker that delivers it.
pub mod Outbox
pub mod Worker
