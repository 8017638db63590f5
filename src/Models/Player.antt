-- ===== src/Models/Player.antt =====
-- crates/qomicex-connector/src/models/player.rs
use qomicex_connector_rust.Base.{Text, Option, Bool, true, false}

pub data PlayerKind : Type 0 where
  host guest : PlayerKind

abbrev pub is_host : PlayerKind → Bool
is_host host = true
is_host guest = false

pub record PlayerInfo : Type 0 where
  pub name : Text
  pub machine_id : Text
  pub easytier_id : Option Text
  pub vendor : Text
  pub kind : PlayerKind

pub record PlayerProfileEntry : Type 0 where
  pub name : Text
  pub machine_id : Text
  pub easytier_id : Option Text
  pub vendor : Text
  pub kind : Option Text
