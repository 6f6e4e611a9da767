-- ===== src/Leases/Listing.antt =====
-- A listing of the lock root is whole.
use coordination_loop_harnes.Json.{Json}
use coordination_loop_harnes.Util.Host.{Host}
