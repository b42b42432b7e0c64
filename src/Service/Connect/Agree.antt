-- ===== src/Service/Connect/Agree.antt =====
-- What `colod_connect_peer` leaves on the two nodes.
use mathlib.Core.Path.{subst}
use colo_manage_tools.Prelude.{
  sym, refl, pos, ap, ◌∙◌, if◌then◌else◌, String, true, false, some, ◌≡◌, arith, inl, inr,
  is_negative, Bool-cases, Option-cases,
}
use colo_manage_tools.Config.{ColoStatus, colod_port, is_primary_node, is_secondary_node}
use colo_manage_tools.Platform.{Yaml, Os, RetVal, peer_save_status}
use colo_manage_tools.World.{
  World, Outcome-cases, returned, ◌>>=◌, ◌>>◌, set_remote_client, remote_call, modify, fail,
  succeed,
}
use colo_manage_tools.World.Called.{set_remote_client-returned, remote_call-returned}
use colo_manage_tools.SaveFile.{parse_config_file, save_colo_status}
use colo_manage_tools.Frame.{Keeps-save_colo_status}
use colo_manage_tools.Frame.Globals.{globals, HasGlobals-IsLocal, globals-returned}
use colo_manage_tools.Service.Status.{set_peer_init}
use colo_manage_tools.Service.Connect.{
  opposite, mirrored, record_connection, colod_connect_peer, peer_colod_save_status,
}
use colo_manage_tools.Service.Connect.Mirror.{IsPaired, mirrored-mirrored}

-- Two statuses of which each has the other node as its peer.
abbrev pub AreOpposite : ColoStatus → ColoStatus → Type 0
AreOpposite a b =
    (b.host_ip ≡ a.peer_ip)
    × (b.host_user ≡ a.peer_user)
    × (b.host_file_path ≡ a.peer_file_path)
    × (b.peer_ip ≡ a.host_ip)
    × (b.peer_user ≡ a.host_user)
    × (b.peer_file_path ≡ a.host_file_path)
    × (is_primary_node b.local_status ≡ is_secondary_node a.local_status)
    × (is_secondary_node b.local_status ≡ is_primary_node a.local_status)

mirrored-AreOpposite : (cs : ColoStatus) → AreOpposite cs (mirrored cs)
unfolding mirrored opposite
mirrored-AreOpposite cs = ground arith

module _ ⦃Y : Yaml⦄ ⦃O : Os⦄ where
  -- The end of both handlers.
  saves-status :
      (cs : ColoStatus) (text : String) (w w' : World) (ret : RetVal)
      → (save_colo_status cs >>= (λ r.
            if is_negative r
            then fail "cannot save colo status"
            else do set_peer_init true; succeed text))
          w
        ≡ returned ret w'
      → is_negative ret.code ≡ false
      → globals w' ≡ record (globals w) { peer_init = true }
  unfolding ◌>>=◌
  saves-status cs text w w' ret h ok = elim (Outcome-cases (save_colo_status cs w)) [
    | inr (v, e) ↦ absurd (ground (arith, e))
    | inl (r, v, e) ↦
        let same =
          globals-returned (Keeps-save_colo_status (HasGlobals-IsLocal (globals w)) cs) e in
        ground (arith, e, same)
  ]

  -- A connect that answers 0 has sent the status that it leaves as the current one to the port of
  -- the daemon on the node that this status names as the peer, and the peer answered no error; the client
  -- keeps that address, and both flags say that there is a connection.
  pub colod_connect_peer-connected :
      (path : String) (w w' : World) (ret : RetVal)
      → colod_connect_peer path w ≡ returned ret w'
      → is_negative ret.code ≡ false
      → (w'.peer_init ≡ true)
        × (w'.remote_client_init ≡ true)
        × (w'.remote_address ≡ some (w'.current_status.peer_ip, colod_port))
        × (s : O.State) × (crv : RetVal) × ((O.call s w'.current_status.peer_ip colod_port
              (peer_save_status w'.current_status)).0
            ≡ some crv)
        × (is_negative crv.code ≡ false)
  unfolding colod_connect_peer record_connection modify ◌>>=◌
  colod_connect_peer-connected path w w' ret h ok =
      elim (Outcome-cases (parse_config_file path w.current_status w)) [
        | inr (v, e) ↦ absurd (ground (arith, e))
        | inl ((r, cs), v, e) ↦
            let here = record v { current_status = cs } in
            let there = record here { remote_address = some (cs.peer_ip, colod_port) } in
            let asks = record there { remote_client_init = true } in
            elim (Bool-cases (is_negative r)) [
              | inl bad ↦ absurd (ground (arith, e, bad))
              | inr good ↦ elim (Outcome-cases (set_remote_client cs.peer_ip colod_port here)) [
                | inr (x, f) ↦ absurd (ground (arith, e, good, f))
                | inl (done, x, f) ↦
                    let x_e : x ≡ there =
                      set_remote_client-returned cs.peer_ip colod_port here x f in
                    elim (Outcome-cases (remote_call (peer_save_status cs) asks)) [
                      | inr (y, g) ↦ absurd (ground (arith, e, good, f, x_e, g))
                      | inl (reply, y, g) ↦
                          let (reply_e, y_e) =
                            remote_call-returned (peer_save_status cs) cs.peer_ip colod_port asks y
                              reply refl g in
                          elim (Option-cases reply) [
                            | inr lost ↦ absurd (ground (arith, e, good, f, x_e, g, lost))
                            | inl (crv, came) ↦ elim (Bool-cases (is_negative crv.code)) [
                              | inl bad ↦ absurd (ground (arith, e, good, f, x_e, g, came, bad))
                              | inr kept ↦
                                  let left =
                                    saves-status cs "connect peer success." y w' ret
                                      (ground (arith, e, good, f, x_e, g, came, kept)) ok in
                                  let cs_e : w'.current_status ≡ cs = ground (arith, left, y_e) in
                                  (
                                    ground (arith, left),
                                    ground (arith, left, y_e),
                                    ground (arith, left, y_e),
                                    v.os,
                                    crv,
                                    ground (arith, reply_e, came, cs_e),
                                    kept,
                                  )
                            ]
                          ]
                    ]
              ]
            ]
      ]

  -- A node that accepts the status of a peer sees the same pair from its side, and takes the peer for
  -- connected; its client gets the address of the peer only where `remote_client_init` was not
  -- set, and otherwise keeps the address that it had, whatever node the status came from.
  pub peer_colod_save_status-mirrored :
      (cs : ColoStatus) (w w' : World) (ret : RetVal)
      → peer_colod_save_status cs w ≡ returned ret w'
      → is_negative ret.code ≡ false
      → (w'.current_status ≡ mirrored cs)
        × (w'.peer_init ≡ true)
        × (w'.remote_address
            ≡ (if w.remote_client_init then w.remote_address else some (cs.host_ip, colod_port)))
  unfolding peer_colod_save_status mirrored set_remote_client ◌>>=◌
  peer_colod_save_status-mirrored cs w w' ret h ok =
      let u = record w { current_status = mirrored cs } in
      elim (Bool-cases w.remote_client_init) [
        | inl e ↦
            ground (arith, e, saves-status (mirrored cs) "peer colod save status success." u w' ret)
        | inr e ↦ ground (
          arith,
          e,
          saves-status (mirrored cs) "peer colod save status success."
              (record u { remote_address = some (cs.host_ip, colod_port) }) w' ret,
        )
      ]

  pub colod_connect_peer-agree :
      (path : String) (w w' v v' : World) (ret ret' : RetVal)
      → colod_connect_peer path w ≡ returned ret w'
      → is_negative ret.code ≡ false
      → peer_colod_save_status w'.current_status v ≡ returned ret' v'
      → is_negative ret'.code ≡ false
      → IsPaired w'.current_status
      → AreOpposite w'.current_status v'.current_status
        × (mirrored v'.current_status ≡ record w'.current_status { port = pos colod_port })
        × (w'.peer_init ≡ true)
        × (v'.peer_init ≡ true)
  colod_connect_peer-agree path w w' v v' ret ret' h ok h' ok' p =
      let (here, on, address) =
        peer_colod_save_status-mirrored w'.current_status v v' ret' h' ok' in
      (
        subst (AreOpposite w'.current_status) (sym here) (mirrored-AreOpposite w'.current_status),
        ap mirrored here ∙ mirrored-mirrored w'.current_status p,
        (colod_connect_peer-connected path w w' ret h ok).0,
        on,
      )
