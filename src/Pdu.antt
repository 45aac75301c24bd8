-- ===== src/Pdu.antt =====
-- src/core/matrix/pdu: the counts and identifiers of events.
pub mod Count
pub mod RawId
mod Tests
