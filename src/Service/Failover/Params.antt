-- ===== src/Service/Failover/Params.antt =====
-- When `colod_set_params` asks QEMU for something.
use colo_manage_tools.Prelude.{
  ℤ, minus_one, String, ◌<>◌, true, false, none, ◌≡◌, ◌⊎◌, inl, inr, arith, Bool-cases,
}
use colo_manage_tools.Config.{is_shut_off}
use colo_manage_tools.Platform.{Yaml, Os}
use colo_manage_tools.Domains
use colo_manage_tools.Domains.{get-insert}
use colo_manage_tools.World.{World, returned, ◌>>=◌, domain_at}
use colo_manage_tools.Service.Failover.{param_cmd, colod_set_params}

module _ ⦃Y : Yaml⦄ ⦃O : Os⦄ where
  -- `colod_set_params` for a domain that is shut off or not colo-enabled, or for a property other
  -- than the three that it knows, answers -1, and neither a file nor the operating system, and so no
  -- socket, is touched.
  pub colod_set_params-refused :
      (name property : String) (value : ℤ) (w : World)
      → (is_shut_off (Domains.get name w.domains).status ≡ true)
        ⊎ ((Domains.get name w.domains).colo_enable ≡ false)
        ⊎ (param_cmd property value ≡ none)
      → (msg : String) × (ds : Domains.Domains) × (colod_set_params name property value w
          ≡ returned (record { code = minus_one; msg = msg }) (record w { domains = ds }))
  unfolding colod_set_params ◌>>=◌ domain_at
  colod_set_params-refused name property value w why =
      let d = Domains.get name w.domains in
      let u = Domains.insert name d w.domains in
      let v = Domains.insert name (Domains.get name u) u in
      elim (Bool-cases (is_shut_off d.status)) [
        | inl off ↦ ("can not set params for a shutoff domain.", u, ground (arith, off))
        | inr up ↦ elim (Bool-cases d.colo_enable) [
          | inr bad ↦ (
            "can not set params for a colo-disabled domain.",
            v,
            ground (arith, up, bad, get-insert name d w.domains),
          )
          | inl on ↦ (
            "can not find property : " <> property <> ".",
            v,
            ground (arith, up, on, get-insert name d w.domains),
          )
        ]
      ]
