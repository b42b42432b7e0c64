-- ===== src/World/Called.antt =====
-- What a return of `set_remote_client` and of `remote_client.call` tells: that nothing was thrown.
use colo_manage_tools.Prelude.{ℕ, String, Option, some, ◌≡◌, arith, Bool-cases, inl, inr}
use colo_manage_tools.Platform.{Yaml, Os, RetVal, Request}
use colo_manage_tools.World.{World, returned, set_remote_client, remote_call, sys}

module _ ⦃Y : Yaml⦄ ⦃O : Os⦄ where
  pub set_remote_client-returned :
      (ip : String) (port : ℕ) (w w' : World)
      → set_remote_client ip port w ≡ returned tt w'
      → w' ≡ record w { remote_address = some (ip, port) }
  unfolding set_remote_client
  set_remote_client-returned ip port w w' h = elim (Bool-cases (O.is_endpoint w.os ip port)) [
    | inl taken ↦ ground (arith, h, taken)
    | inr refused ↦ absurd (ground (arith, h, refused))
  ]

  pub remote_call-returned :
      (r : Request) (ip : String) (port : ℕ) (w w' : World) (o : Option RetVal)
      → w.remote_address ≡ some (ip, port)
      → remote_call r w ≡ returned o w'
      → (o ≡ (O.call w.os ip port r).0) × (w' ≡ record w { os = (O.call w.os ip port r).1 })
  unfolding remote_call sys
  remote_call-returned r ip port w w' o a h = elim (Bool-cases (O.call_throws w.os ip port r)) [
    | inl threw ↦ absurd (ground (arith, h, a, threw))
    | inr calls ↦ ground (arith, h, a, calls)
  ]
