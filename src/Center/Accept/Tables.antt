-- ===== src/Center/Accept/Tables.antt =====
-- The tables of a server have entries of open connections only.
use qomicex_connector_rust.Base.{
  ℕ, ◌≡◌, Text, true, false, List, [], ◌∷◌, Option, none, some, arith, text_eq, Map, lookup, remove,
  lookup-insert, lookup-remove,
}
use qomicex_connector_rust.Center.Registry.{
  ClientRegistry, register, record_heartbeat, cleanup, cancel_found, expire, expire_all,
}
use qomicex_connector_rust.Center.Connection.Isolation.{Absent}

pub register-Absent :
    (id c ip : Text) (ct : ℕ) (r : ClientRegistry)
    → text_eq c id ≡ false
    → Absent id r
    → Absent id (register c ip ct r)
unfolding register
register-Absent id c ip ct r n h = record {
  heartbeat = h.heartbeat;
  active = ground (arith, lookup-insert c id ct r.active_clients, h.active);
  machine = h.machine;
  ip = ground (arith, lookup-insert c id ip r.client_ip, h.ip);
}

pub record_heartbeat-Absent :
    (id c : Text) (now : ℕ) (o : Option Text) (r : ClientRegistry)
    → text_eq c id ≡ false
    → Absent id r
    → Absent id (record_heartbeat c now o r)
unfolding record_heartbeat
record_heartbeat-Absent id c now none r n h = record {
  heartbeat = ground (arith, lookup-insert c id now r.last_heartbeat, h.heartbeat);
  active = h.active;
  machine = h.machine;
  ip = h.ip;
}
record_heartbeat-Absent id c now (some mid) r n h = record {
  heartbeat = ground (arith, lookup-insert c id now r.last_heartbeat, h.heartbeat);
  active = h.active;
  machine = ground (arith, lookup-insert c id mid r.client_machine, h.machine);
  ip = h.ip;
}

pub remove-none :
    {A : Type 0} (c id : Text) (m : Map A) → lookup id m ≡ none → lookup id (remove c m) ≡ none
remove-none c id m e = ground (arith, lookup-remove c id m)

remove-own :
    {A : Type 0} (c id : Text) (m : Map A) → text_eq c id ≡ true → lookup id (remove c m) ≡ none
remove-own c id m e = ground (arith, lookup-remove c id m)

pub cleanup-Absent : (id c : Text) (r : ClientRegistry) → Absent id r → Absent id (cleanup c r).1
unfolding cleanup
cleanup-Absent id c r h = record {
  heartbeat = remove-none c id r.last_heartbeat h.heartbeat;
  active = remove-none c id r.active_clients h.active;
  machine = remove-none c id r.client_machine h.machine;
  ip = remove-none c id r.client_ip h.ip;
}

pub cleanup_own-Absent :
    (id c : Text) (r : ClientRegistry) → text_eq c id ≡ true → Absent id (cleanup c r).1
unfolding cleanup
cleanup_own-Absent id c r e = record {
  heartbeat = remove-own c id r.last_heartbeat e;
  active = remove-own c id r.active_clients e;
  machine = remove-own c id r.client_machine e;
  ip = remove-own c id r.client_ip e;
}

pub cancel_found-Absent :
    (id : Text) (o : Option ℕ) (r : ClientRegistry) → Absent id r → Absent id (cancel_found o r)
unfolding cancel_found
cancel_found-Absent id none r h = h
cancel_found-Absent id (some t) r h = record {
  heartbeat = h.heartbeat;
  active = h.active;
  machine = h.machine;
  ip = h.ip;
}

expire-Absent : (id c : Text) (r : ClientRegistry) → Absent id r → Absent id (expire c r)
unfolding expire
expire-Absent id c r h = cancel_found-Absent id (lookup c r.active_clients) _ (record {
  heartbeat = remove-none c id r.last_heartbeat h.heartbeat;
  active = remove-none c id r.active_clients h.active;
  machine = h.machine;
  ip = h.ip;
})

pub expire_all-Absent :
    (id : Text) (cs : List Text) (r : ClientRegistry) → Absent id r → Absent id (expire_all cs r)
unfolding expire_all
expire_all-Absent id [] r h = h
expire_all-Absent id (c ∷ cs) r h = expire_all-Absent id cs (expire c r) (expire-Absent id c r h)
