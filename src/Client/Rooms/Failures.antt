-- ===== src/Client/Rooms/Failures.antt =====
-- What a creation that fails leaves behind.
use qomicex_connector_rust.Base.{ℕ, Bool, false, ◌||◌, ◌==◌, List, [], ◌∷◌, none, some}
use qomicex_connector_rust.Models.RoomCode.{RoomCode}
use qomicex_connector_rust.Center.Host.{Host}
use qomicex_connector_rust.Client.Rooms.{Client}

-- Whether a token is the one of a center of the list.
unfoldable pub serves : {C : Type 0} → ℕ → List (Host C) → Bool
serves t [] = false
serves t (h ∷ hs) = elim h.slot.server_ct [ none ↦ serves t hs | some ct ↦ ct == t || serves t hs ]
