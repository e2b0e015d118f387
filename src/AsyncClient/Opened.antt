-- ===== src/AsyncClient/Opened.antt =====
-- `AsyncClient.connect` of src/ddmp/aio.py, with the connection that may not be made and its options.
use dometic_ddmp.Base.{◌≡◌, refl, pos, Bool, true, false, Option, none, some, List, []}
use dometic_ddmp.Result.{Result, ok, ◌>>=◌}
use dometic_ddmp.Session.{Session}
use dometic_ddmp.AsyncClient
use dometic_ddmp.AsyncClient.{AsyncClient}
use dometic_ddmp.SyncClient.Keepalive.{
  Constants, Setting, IsSocket, apply_keepalive, apply_keepalive-eq-taken_of,
}

-- What `setsockopt` does on a socket.
abbrev Socket : Type 0
Socket = Setting → Result (Unit {0})

-- What is done for `keepalive`, where the writer may have no socket.
unfoldable pub keep_alive : Constants → Bool → Option Socket → Result (List Setting)
keep_alive c false sock = ok []
keep_alive c true none = ok []
keep_alive c true (some setsockopt) = apply_keepalive setsockopt c (pos 30) (pos 10) (pos 3)

-- `connect`
unfoldable pub open_client :
    {F : Type 0}
    → Constants
    → Result (Unit {0})
    → Bool
    → Option Socket
    → Session F
    → Bool
    → Result (AsyncClient F)
open_client c reached keepalive sock s subscribe = do
  there ← reached
  taken ← keep_alive c keepalive sock
  AsyncClient.connect s subscribe

-- A socket of the writer, if it has one, raises an `OSError` at most.
abbrev AreSockets : Option Socket → Type 0
AreSockets none = Unit
AreSockets (some setsockopt) = IsSocket setsockopt

keep_alive-total :
    (c : Constants) (keepalive : Bool) (sock : Option Socket)
    → AreSockets sock
    → (taken : List Setting) × (keep_alive c keepalive sock ≡ ok taken)
unfolding keep_alive
keep_alive-total c false sock h = ([], refl)
keep_alive-total c true none h = ([], refl)
keep_alive-total c true (some setsockopt) h =
    (_, apply_keepalive-eq-taken_of setsockopt c (pos 30) (pos 10) (pos 3) h)

-- Where `setsockopt` raises an `OSError` at most, the options change nothing else.
open_client-eq-connect :
    {F : Type 0}
    → (c : Constants) (reached : Result (Unit {0})) (keepalive : Bool) (sock : Option Socket)
      (s : Session F) (subscribe : Bool)
    → AreSockets sock
    → open_client c reached keepalive sock s subscribe
      ≡ (reached >>= (λ there. AsyncClient.connect s subscribe))
unfolding open_client
open_client-eq-connect c reached keepalive sock s subscribe h =
    let (taken, kept) = keep_alive-total c keepalive sock h in rw kept refl
