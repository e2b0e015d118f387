-- ===== src/SyncClient/Keepalive.antt =====
-- `apply_keepalive` of src/ddmp/sync_client.py. The constants of the socket module, those that a platform
-- may lack included, and what `setsockopt` does are parameters.
use dometic_ddmp.Base.{
  arith, ℕ, ℤ, pos, ◌≡◌, refl, Bool, true, false, inl, inr, ◌⊎◌, Option, none, some, List, [], ◌∷◌,
  ◌++◌, ◌==◌, if◌then◌else◌,
}
use dometic_ddmp.SyncClient
use dometic_ddmp.SyncClient.{SyncClient}
use dometic_ddmp.Result.{Result, ok, err, connection_closed, os_error, ◌>>=◌}

pub record Constants : Type 0 where
  pub sol_socket : ℕ
  pub so_keepalive : ℕ
  pub ipproto_tcp : ℕ
  pub tcp_keepidle : Option ℕ
  pub tcp_keepalive : Option ℕ
  pub tcp_keepintvl : Option ℕ
  pub tcp_keepcnt : Option ℕ

-- The arguments of one call of `setsockopt`.
pub record Setting : Type 0 where
  pub level : ℕ
  pub name : ℕ
  pub value : ℤ

-- `getattr(socket, "TCP_KEEPIDLE", None) or getattr(socket, "TCP_KEEPALIVE", None)`
unfoldable pub number_or : Option ℕ → Option ℕ → Option ℕ
number_or none q = q
number_or (some n) q = if n == 0 then q else some n

-- The call that is made where the platform has the option.
unfoldable pub setting_of : ℕ → Option ℕ → ℤ → List Setting
setting_of level none value = []
setting_of level (some name) value = record { level = level; name = name; value = value } ∷ []

-- The calls, in order.
unfoldable pub settings : Constants → ℤ → ℤ → ℤ → List Setting
settings c idle interval count =
    setting_of c.sol_socket (some c.so_keepalive) (pos 1)
    ++ setting_of c.ipproto_tcp (number_or c.tcp_keepidle c.tcp_keepalive) idle
    ++ setting_of c.ipproto_tcp c.tcp_keepintvl interval
    ++ setting_of c.ipproto_tcp c.tcp_keepcnt count

module _ (setsockopt : Setting → Result (Unit {0})) where
  -- `with contextlib.suppress(OSError): sock.setsockopt(...)`, one call after the other: the settings
  -- that the socket has taken.
  unfoldable pub apply_all : List Setting → Result (List Setting)
  apply_all [] = ok []
  apply_all (s ∷ rest) =
      let taken = apply_all rest in
      elim (setsockopt s) [
        | ok done ↦ (do ss ← taken; ok (s ∷ ss))
        | err os_error ↦ taken
        | err x ↦ err x
      ]

  -- `apply_keepalive`
  unfoldable pub apply_keepalive : Constants → ℤ → ℤ → ℤ → Result (List Setting)
  apply_keepalive c idle interval count = apply_all (settings c idle interval count)

  abbrev is_taken : Result (Unit {0}) → Bool
  is_taken (ok done) = true
  is_taken (err x) = false

  -- The settings that the socket takes.
  abbrev pub taken_of : List Setting → List Setting
  taken_of [] = []
  taken_of (s ∷ rest) = if is_taken (setsockopt s) then s ∷ taken_of rest else taken_of rest

  -- `setsockopt` returns, or raises an `OSError`.
  abbrev pub IsSocket : Type 0
  IsSocket = (s : Setting) → (setsockopt s ≡ ok tt) ⊎ (setsockopt s ≡ err os_error)

  apply_all-eq-taken_of : (rest : List Setting) → IsSocket → apply_all rest ≡ ok (taken_of rest)
  unfolding apply_all
  apply_all-eq-taken_of [] h = refl
  apply_all-eq-taken_of (s ∷ rest) h = elim (h s) [
    | inl e ↦ rw (apply_all, e) (rw (apply_all-eq-taken_of rest h) refl)
    | inr e ↦ rw (apply_all, e) (apply_all-eq-taken_of rest h)
  ]

  -- Where `setsockopt` raises an `OSError` at most, `apply_keepalive` returns, and a setting that is
  -- refused does not keep the socket from any other.
  pub apply_keepalive-eq-taken_of :
      (c : Constants) (idle interval count : ℤ)
      → IsSocket
      → apply_keepalive c idle interval count ≡ ok (taken_of (settings c idle interval count))
  unfolding apply_keepalive
  apply_keepalive-eq-taken_of c idle interval count h =
      apply_all-eq-taken_of (settings c idle interval count) h

  module _ {F : Type 0} (c : Constants) (reached : Result (Unit {0}))
      (keepalive subscribe : Bool) where
    -- `connect`, with the connection that may not be made and its options.
    unfoldable pub open_client : SyncClient F → Result (SyncClient F)
    open_client client = if client.has_sock then err connection_closed else (do
      there ← reached
      taken ← if keepalive then apply_keepalive c (pos 30) (pos 10) (pos 3) else ok []
      SyncClient.connect client subscribe)

    -- Where `setsockopt` raises an `OSError` at most, the options change nothing else.
    open_client-eq-connect :
        (client : SyncClient F)
        → IsSocket
        → client.has_sock ≡ false
        → open_client client ≡ (reached >>= (λ there. SyncClient.connect client subscribe))
    unfolding open_client
    open_client-eq-connect client h fresh =
        let taken = apply_keepalive-eq-taken_of c (pos 30) (pos 10) (pos 3) h in
        rw (fresh, taken) (ground arith)
