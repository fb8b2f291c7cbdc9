-- ===== src/Announce.antt =====
-- The announcements of dtnex.c: `refreshMyContacts`, `refreshMyRanges` and `exchangeWithNeighbors`.
-- A snapshot is the static array with its count and the time of its last refresh.
pub mod Snapshot
pub mod Exchange
