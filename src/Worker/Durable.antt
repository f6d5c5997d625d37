-- ===== src/Worker/Durable.antt =====
-- The job journal invariant: no job is 'done' before an index sync that covers it.
use raggio.Prelude.Keys.{nat_eq}
use raggio.Worker.{Worker}
