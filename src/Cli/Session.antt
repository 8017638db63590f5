-- ===== src/Cli/Session.antt =====
-- The state of the commands `host` and `guest` of crates/qomicex-connector-cli/src/main.rs, and actions
-- on it. A room or a guest that the client manages is shared with the command that got it: what the
-- command does to it is done to the last one of the client's list.
use qomicex_connector_rust.Base.{Text, List, [], ◌∷◌, ◌++◌}
use qomicex_connector_rust.Base.Result.{Result, ok, err}
use qomicex_connector_rust.Error.{Outcome}
use qomicex_connector_rust.Center.Host.{Host}
use qomicex_connector_rust.Guest.Member.{Member}
use qomicex_connector_rust.Client.Rooms.{Client, new_client}
use qomicex_connector_rust.Cli.{scaffolding, foreign, Fallible}

-- The client, and the lines that were printed.
pub record Session : Type 0 where
  pub client : Client (Unit {0})
  pub console : List Text

abbrev pub new_session : Session
new_session = record { client = new_client; console = [] }

-- A fallible action keeps the state that it reached, also where it fails.
abbrev pub Act : Type 0 → Type 0 → Type 0
Act S A = S → Fallible A × S

abbrev pub and_then : {S A B : Type 0} → Fallible A × S → (A → Act S B) → Fallible B × S
and_then (ok a, s) f = f a s
and_then (err e, s) f = (err e, s)

infixl 5 ◌>>=◌ ◌>>◌
abbrev pub ◌>>=◌ : {S A B : Type 0} → Act S A → (A → Act S B) → Act S B
(m >>= f) s = and_then (m s) f

abbrev pub ◌>>◌ : {S B : Type 0} → Act S (Unit {0}) → Act S B → Act S B
(m >> k) s = and_then (m s) (λ u. k)

abbrev pub lift : {S A : Type 0} → Fallible A → Act S A
lift r s = (r, s)

-- `println!`
unfoldable pub say : Text → Act Session (Unit {0})
say line s = (ok tt, record s { console = s.console ++ line ∷ [] })

-- One line for each element.
unfoldable pub say_all : {A : Type 0} → (A → Text) → List A → Act Session (Unit {0})
unfolding say
say_all line [] = λ s. (ok tt, s)
say_all line (a ∷ rest) = say (line a) >> say_all line rest

-- `?` on an error of the library.
abbrev pub boxed : {A : Type 0} → Outcome A → Fallible A
boxed (ok a) = ok a
boxed (err e) = err (scaffolding e)

-- `?` on an error of the system, as a text.
abbrev pub foreigner : {A : Type 0} → Result Text A → Fallible A
foreigner (ok a) = ok a
foreigner (err why) = err (foreign why)

unfoldable pub on_client :
    {A : Type 0} → (Client (Unit {0}) → Outcome A × Client (Unit {0})) → Act Session A
on_client f s = let (r, c) = f s.client in (boxed r, record s { client = c })

-- What `f` does to the last of the list, or to `handle` where the list is empty.
unfoldable pub act_last : {X R : Type 0} → (X → R × X) → X → List X → R × List X
act_last f handle [] = ((f handle).0, [])
act_last f handle (x ∷ []) = ((f x).0, (f x).1 ∷ [])
act_last f handle (x ∷ y ∷ rest) = let (r, rest') = act_last f handle (y ∷ rest) in (r, x ∷ rest')

unfoldable pub on_center :
    (Host (Unit {0}) → Outcome (Unit {0}) × Host (Unit {0}))
    → Host (Unit {0})
    → Act Session (Unit {0})
on_center f center s =
    let (r, centers) = act_last f center s.client.managed_centers in
    (boxed r, record s { client = record s.client { managed_centers = centers } })

unfoldable pub on_guest : {A : Type 0} → (Member → Outcome A × Member) → Member → Act Session A
on_guest f guest s =
    let (r, guests) = act_last f guest s.client.managed_guests in
    (boxed r, record s { client = record s.client { managed_guests = guests } })
