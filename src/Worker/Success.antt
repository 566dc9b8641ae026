-- ===== src/Worker/Success.antt =====
-- A worker's pass where entries are always free.
use tcpchatserver.Manager.{Manager}
