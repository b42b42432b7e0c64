-- ===== src/QmpSocket/Complete.antt =====
-- When `send_qmp_cmds` answers 0.
use colo_manage_tools.Prelude.{ℤ, pos, String, List, [], ◌∷◌, false, ◌≡◌, refl, arith, is_negative}
use colo_manage_tools.Platform.{Yaml, Os}
use colo_manage_tools.World.{World, returned, ◌>>=◌}
use colo_manage_tools.QmpSocket.{
  QmpSocket, throw, qmp_connect, qmp_send, qmp_recv, qmp_close, send_loop, send_qmp_cmds,
}
use colo_manage_tools.QmpSocket.Exchange.{Exchange, done, exchanged}

module _ ⦃Y : Yaml⦄ ⦃O : Os⦄ where
  send_loop_complete :
      (qs : QmpSocket) (w : World) (cmds : List String) (s t : O.State)
      → Exchange qs.sockfd s cmds t
      → send_loop qs cmds (record w { os = s })
        ≡ returned (pos 0) (record w { os = O.close t qs.sockfd })
  unfolding send_loop qmp_close qmp_send qmp_recv throw ◌>>=◌
  send_loop_complete qs w [] s t done = refl
  send_loop_complete qs w (cmd ∷ cmds) s t (exchanged sent_ok got_ok rest) =
      ground (arith, sent_ok, got_ok, send_loop_complete qs w cmds _ t rest)

  -- A monitor that can be opened.
  pub record IsOpened (w : World) (fd : ℤ) (s : O.State) : Type 0 where
    pub opened : O.State
    pub socket : O.socket w.os ≡ (fd, opened)
    pub valid : is_negative fd ≡ false
    pub connected : is_negative (O.connect opened fd "127.0.0.1" 4444).0 ≡ false
    pub greeted : is_negative (O.recv (O.connect opened fd "127.0.0.1" 4444).1 fd).0 ≡ false
    pub greeting : (O.recv (O.connect opened fd "127.0.0.1" 4444).1 fd).2 ≡ s

  pub send_qmp_cmds_complete :
      (cmds : List String) (w : World) (fd : ℤ) (s t : O.State)
      → IsOpened w fd s
      → Exchange fd s cmds t
      → send_qmp_cmds cmds w ≡ returned (pos 0) (record w { os = O.close t fd })
  unfolding send_qmp_cmds qmp_connect qmp_recv throw ◌>>=◌
  send_qmp_cmds_complete cmds w fd s t o e = ground (
    arith,
    o.socket,
    o.valid,
    o.connected,
    o.greeted,
    o.greeting,
    send_loop_complete (record { sockfd = fd; sockaddr = "127.0.0.1"; port = 4444 }) w cmds s t e,
  )
