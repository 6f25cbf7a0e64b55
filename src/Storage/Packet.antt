-- ===== src/Storage/Packet.antt =====
-- server/include/core/servertypes.hpp: one sample; `D` is `double`.
use accel_observer.Prelude.{ℕ}

pub record DataPacket (D : Type 0) : Type 0 where
  pub timestamp_ms : ℕ
  pub sequence_id : ℕ
  pub acc_x : D
  pub acc_y : D
  pub acc_z : D
