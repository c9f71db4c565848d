-- ===== src/Sdk/Qr/Rounds.antt =====
-- The rounds that the polling loop is given are more than it uses, if waiting takes time.
use ipgw_meta.Prelude.{◌≤◌, ◌<◌}
use ipgw_meta.Sdk.Machine.{HttpRequest, Ports, Machine}
use ipgw_meta.Sdk.Http.{Client}

-- No call turns the clock back, and a wait between two polls takes at least a millisecond.
pub record Clocked (p : Ports) (c : Client) : Type 0 where
  pub requests : (r : HttpRequest) (w : p.World) → p.now w ≤ p.now (p.round_trip r w).1
  pub uuids : (w : p.World) → p.now w ≤ p.now (p.random_uuid w).1
  pub waits : (w : p.World) → p.now w < p.now (p.wait c.poll_interval w).1
