-- ===== src/QmpSocket.antt =====
-- `qmp_socket` of src/utils/colod_utils.cpp and `send_qmp_cmds` of src/utils/colod_service.cpp.
pub mod Exchange
pub mod Complete
use colo_manage_tools.Prelude.{
  ℕ, ℤ, pos, minus_one, is_negative, is_positive, String, List, [], ◌∷◌, if◌then◌else◌,
}
use colo_manage_tools.Platform.{Yaml, Os}
use colo_manage_tools.World.{M, thrown, pure, ◌>>=◌, ◌>>◌, sys, modify}

pub record QmpSocket : Type 0 where
  pub sockfd : ℤ
  pub sockaddr : String
  pub port : ℕ

-- qmp_socket::qmp_socket(sockaddr, port)
abbrev pub qmp_socket : String → ℕ → QmpSocket
qmp_socket sockaddr port = record { sockfd = minus_one; sockaddr = sockaddr; port = port }

module _ ⦃Y : Yaml⦄ ⦃O : Os⦄ where
  unfoldable pub qmp_connect : QmpSocket → M (ℤ × QmpSocket)
  qmp_connect qs = if is_positive qs.sockfd then pure (minus_one, qs) else do
    fd ← sys O.socket
    if is_negative fd then pure (minus_one, qs) else do
      ret ← sys (λ s. O.connect s fd qs.sockaddr qs.port)
      pure (if is_negative ret then minus_one else pos 0, record qs { sockfd = fd })

  unfoldable pub qmp_send : QmpSocket → String → M ℤ
  qmp_send qs msg = do
    ret ← sys (λ s. O.send s qs.sockfd msg)
    pure (if is_negative ret then minus_one else ret)

  unfoldable pub throw : {A : Type 0} → M A
  throw w = thrown w

  -- The value and `msg`. After a failed recv, `std::string(recv_msg, ret)` is asked for a text of
  -- SIZE_MAX characters, and throws std::length_error.
  unfoldable pub qmp_recv : QmpSocket → M (ℤ × String)
  unfolding throw
  qmp_recv qs w =
      (do
        answer ← sys (λ s. (let (ret, msg, s') = O.recv s qs.sockfd in ((ret, msg), s')))
        let (ret, msg) = answer
        if is_negative ret then throw else pure (ret, msg))
        w

  unfoldable pub qmp_close : QmpSocket → M (Unit {0})
  qmp_close qs = modify λ w. record w { os = O.close w.os qs.sockfd }

  -- The loop of `send_qmp_cmds`.
  unfoldable pub send_loop : QmpSocket → List String → M ℤ
  send_loop qs [] = do qmp_close qs; pure (pos 0)
  send_loop qs (cmd ∷ cmds) = do
    ret ← qmp_send qs cmd
    if is_negative ret then pure ret else do
      answer ← qmp_recv qs
      let (ret', msg) = answer
      if is_negative ret' then pure ret' else send_loop qs cmds

  unfoldable pub send_qmp_cmds : List String → M ℤ
  send_qmp_cmds cmds = do
    connected ← qmp_connect (qmp_socket "127.0.0.1" 4444)
    let (ret, qs) = connected
    if is_negative ret then pure ret else do
      greeting ← qmp_recv qs
      let (ret', msg) = greeting
      if is_negative ret' then pure ret' else send_loop qs cmds
