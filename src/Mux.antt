-- ===== src/Mux.antt =====
-- library/src/mux: packets for named endpoints.
pub mod Client
pub mod Server
