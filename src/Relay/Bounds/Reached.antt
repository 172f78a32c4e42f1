-- ===== src/Relay/Bounds/Reached.antt =====
-- Every event keeps the relay within its bounds.
use tnp.Protocol.Frame.{Frame}
use tnp.Relay.State.{Relay}
use tnp.Relay.Lowers.{Lowers}
