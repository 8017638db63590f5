-- ===== src/Center/Registry/Kick.antt =====
-- What disconnecting a machine does to the tables.
use qomicex_connector_rust.Base.{
  ℕ, ◌≡◌, Text, true, ◌||◌, none, some, arith, ◌==◌, if◌then◌else◌, text_eq, lookup, lookup-remove,
}
use qomicex_connector_rust.Center.Registry.{ClientRegistry, cancel, client_of, disconnect_machine}

-- Disconnecting a machine which a connection with a token has reported finds that connection: it
-- cancels its token and no other, takes its entry out of the active clients and no other, and leaves
-- the other tables alone.
pub disconnect_machine_lem :
    (machine_id : Text) (r : ClientRegistry) (id : Text) (t : ℕ) (u : ℕ) (other : Text)
    → client_of machine_id r.client_machine ≡ some id
    → lookup id r.active_clients ≡ some t
    → (let (found, after) = disconnect_machine machine_id r in
        (found ≡ true)
        × (after.cancelled u ≡ (t == u || r.cancelled u))
        × (lookup other after.active_clients
            ≡ (if text_eq id other then none else lookup other r.active_clients))
        × (after.last_heartbeat ≡ r.last_heartbeat)
        × (after.client_machine ≡ r.client_machine)
        × (after.client_ip ≡ r.client_ip))
unfolding disconnect_machine cancel
disconnect_machine_lem machine_id r id t u other e h =
    let removed = lookup-remove id other r.active_clients in
    (ground arith, ground arith, ground arith, ground arith, ground arith, ground arith)
