-- ===== src/Guest/Address.antt =====
-- Which address of the Minecraft server a guest gets that has joined a room over the virtual network.
use qomicex_connector_rust.Base.{none, some, false}
use qomicex_connector_rust.Models.Network.{NetworkConfig}
use qomicex_connector_rust.Core.Discovery.{CenterDiscoveryResult}
use qomicex_connector_rust.Guest.Tcp.Laws.{idle}
use qomicex_connector_rust.Guest.Session.{Guest}

-- A guest that is connected over the virtual network, with nothing unread on its connection, and has not
-- mapped an address, neither in this room nor in one before.
abbrev pub joined_directly : Guest → NetworkConfig → CenterDiscoveryResult → Guest
joined_directly g config center = record g {
  tcp = idle;
  config = some config;
  center = some center;
  use_port_forward = false;
  minecraft_host = none;
}
