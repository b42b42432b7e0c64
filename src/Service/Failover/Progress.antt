-- ===== src/Service/Failover/Progress.antt =====
-- When `colod_do_failover` and `colod_set_params` succeed.
use colo_manage_tools.Prelude.{
  ℤ, pos, String, List, [], ◌∷◌, some, true, false, ◌≡◌, ◌⊎◌, inl, inr, Bool-cases, arith,
}
use colo_manage_tools.Config.{ColoDomainStatus, is_shut_off, is_primary, is_secondary}
use colo_manage_tools.Platform.{Yaml, Os}
use colo_manage_tools.Domains
use colo_manage_tools.Domains.{get-insert}
use colo_manage_tools.World.{World, returned, ◌>>=◌, domain_at, set_domain}
use colo_manage_tools.QmpSocket.{send_qmp_cmds}
use colo_manage_tools.QmpSocket.Exchange.{Exchange}
use colo_manage_tools.QmpSocket.Complete.{IsOpened, send_qmp_cmds_complete}
use colo_manage_tools.Domain.Qmp.{qmp_capabilities}
use colo_manage_tools.Service.Failover.{
  tear_down, send_param, param_cmd, colod_set_params, colod_do_failover, secondary_failover_cmds,
  primary_failover_cmds,
}
use colo_manage_tools.Service.Failover.Degrade.{degraded}

abbrev pub failover_cmds : ColoDomainStatus → List String
failover_cmds ColoDomainStatus.secondary = secondary_failover_cmds
failover_cmds _ = primary_failover_cmds

module _ ⦃Y : Yaml⦄ ⦃O : Os⦄ (w : World) (fd : ℤ) (s t : O.State) (o : IsOpened w fd s) where
  sent_in :
      (cmds : List String) (ds : Domains.Domains)
      → Exchange fd s cmds t
      → send_qmp_cmds cmds (record w { domains = ds })
        ≡ returned (pos 0) (record w { domains = ds; os = O.close t fd })
  sent_in cmds ds e =
      send_qmp_cmds_complete cmds (record w { domains = ds }) fd s t
        (record {
          opened = o.opened;
          socket = o.socket;
          valid = o.valid;
          connected = o.connected;
          greeted = o.greeted;
          greeting = o.greeting;
        })
        e

  -- A failover of a domain that is not shut off, is colo-enabled and has the role of a secondary or of
  -- a primary returns the code 0, where the monitor can be opened, sends a greeting, and
  -- answers each of the commands for this role.
  pub colod_do_failover-returned :
      (name : String)
      → is_shut_off (Domains.get name w.domains).status ≡ false
      → (Domains.get name w.domains).colo_enable ≡ true
      → (is_secondary (Domains.get name w.domains).colo_status ≡ true)
        ⊎ (is_primary (Domains.get name w.domains).colo_status ≡ true)
      → Exchange fd s (failover_cmds (Domains.get name w.domains).colo_status) t
      → (msg : String) × (w' : World) × (colod_do_failover name w
          ≡ returned (record { code = pos 0; msg = msg }) w')
  unfolding colod_do_failover tear_down domain_at set_domain ◌>>=◌
  colod_do_failover-returned name up on role e =
      let d = Domains.get name w.domains in
      let u = Domains.insert name d w.domains in
      let before = get-insert name d w.domains in
      let v =
        Domains.insert name
          (record (Domains.get name u) { colo_status = ColoDomainStatus.failover }) u in
      let ended = λ (ds : Domains.Domains). record w {
        domains = Domains.insert name (degraded (Domains.get name ds)) ds;
        os = O.close t fd;
      } in
      elim (Bool-cases (is_secondary d.colo_status)) [
        | inl second ↦
            let sent = sent_in secondary_failover_cmds v (ground (arith, second, e)) in
            (
              "Primary vm crash and do failover.",
              ended v,
              ground (arith, up, on, second, before, sent),
            )
        | inr first ↦
            let sent = sent_in primary_failover_cmds u (ground (arith, first, role, e)) in
            (
              "Secondary vm crash and do failover.",
              ended u,
              ground (arith, up, on, role, first, before, sent),
            )
      ]

  -- `colod_set_params` of a known property, for a domain that is not shut off and is colo-enabled,
  -- returns the code 0, where the monitor can be opened, sends a greeting, and answers each of the
  -- two commands.
  pub colod_set_params-returned :
      (name property cmd : String) (value : ℤ)
      → is_shut_off (Domains.get name w.domains).status ≡ false
      → (Domains.get name w.domains).colo_enable ≡ true
      → param_cmd property value ≡ some cmd
      → Exchange fd s (qmp_capabilities ∷ cmd ∷ []) t
      → (w' : World) × (colod_set_params name property value w
          ≡ returned (record { code = pos 0; msg = "set params success." }) w')
  unfolding colod_set_params send_param domain_at ◌>>=◌
  colod_set_params-returned name property cmd value up on known e =
      let d = Domains.get name w.domains in
      let u = Domains.insert name d w.domains in
      let before = get-insert name d w.domains in
      let v = Domains.insert name (Domains.get name u) u in
      let sent = sent_in (qmp_capabilities ∷ cmd ∷ []) v e in
      (record w { domains = v; os = O.close t fd }, ground (arith, up, on, known, before, sent))
