-- ===== src/Capabilities.antt =====
-- The messages of api/common/node/capabilities.proto that the gateway reads. A repeated message of a
-- name and a number is an association list, in which the first entry of a name counts.
use strij.Base.{ℕ, String, List, Assoc}

pub record HandlerCapability : Type 0 where
  pub task_type : String
  pub concurrency : ℕ

pub record PoolReservation : Type 0 where
  pub task_type : String
  pub pool : String
  pub amount : ℕ

pub record NodeCapabilities : Type 0 where
  pub node_id : String
  pub pools : Assoc ℕ
  pub reservations : List PoolReservation
  pub handlers : List HandlerCapability
  pub scheduling_protocols : List String
