-- ===== src/QmpSocket/Exchange.antt =====
-- What `send_qmp_cmds` has done where it answers 0.
use colo_manage_tools.Prelude.{
  ℤ, String, List, [], ◌∷◌, false, ◌≡◌, refl, arith, inl, inr, is_negative, Bool-cases,
}
use colo_manage_tools.Platform.{Yaml, Os}
use colo_manage_tools.World.{World, returned, ◌>>=◌}
use colo_manage_tools.QmpSocket.{
  QmpSocket, qmp_socket, throw, qmp_connect, qmp_send, qmp_recv, qmp_close, send_loop,
  send_qmp_cmds,
}

module _ ⦃Y : Yaml⦄ ⦃O : Os⦄ where
  -- The commands were sent one after the other, each after the answer to the one before.
  pub data Exchange (fd : ℤ) : O.State → List String → O.State → Type 0 where
    done : {s : O.State} → Exchange fd s [] s
    exchanged :
        {s t : O.State} {cmd : String} {cmds : List String}
        → is_negative (O.send s fd cmd).0 ≡ false
        → is_negative (O.recv (O.send s fd cmd).1 fd).0 ≡ false
        → Exchange fd (O.recv (O.send s fd cmd).1 fd).2 cmds t
        → Exchange fd s (cmd ∷ cmds) t

  loop-Exchange :
      (qs : QmpSocket) (cmds : List String) (w w' : World) (r : ℤ)
      → send_loop qs cmds w ≡ returned r w'
      → is_negative r ≡ false
      → (t : O.State) × Exchange qs.sockfd w.os cmds t × (w'.os ≡ O.close t qs.sockfd)
  unfolding send_loop qmp_close qmp_send qmp_recv throw ◌>>=◌
  loop-Exchange qs [] w w' r h ok = (w.os, done, ground arith)
  loop-Exchange qs (cmd ∷ cmds) w w' r h ok =
      let sent = O.send w.os qs.sockfd cmd in
      let got = O.recv sent.1 qs.sockfd in
      elim (Bool-cases (is_negative sent.0)) [
        | inl e ↦ absurd (ground (arith, e))
        | inr sent_ok ↦ elim (Bool-cases (is_negative got.0)) [
          | inl e ↦ absurd (ground (arith, e, sent_ok))
          | inr got_ok ↦
              let (t, rest, closed) =
                loop-Exchange qs cmds (record w { os = got.2 }) w' r
                  (ground (arith, sent_ok, got_ok)) ok in
              (t, exchanged sent_ok got_ok rest, closed)
        ]
      ]

  -- `send_qmp_cmds` that answers no error has opened a socket, connected it to the monitor, read the
  -- greeting, sent every command in order, each after the answer to the one before it, and
  -- closed the socket.
  pub send_qmp_cmds-exchanged :
      (cmds : List String) (w w' : World) (r : ℤ)
      → send_qmp_cmds cmds w ≡ returned r w'
      → is_negative r ≡ false
      → (fd : ℤ) × (s t : O.State) × (O.socket w.os ≡ (fd, s))
        × (is_negative (O.connect s fd "127.0.0.1" 4444).0 ≡ false)
        × (is_negative (O.recv (O.connect s fd "127.0.0.1" 4444).1 fd).0 ≡ false)
        × Exchange fd (O.recv (O.connect s fd "127.0.0.1" 4444).1 fd).2 cmds t
        × (w'.os ≡ O.close t fd)
  unfolding send_qmp_cmds qmp_connect qmp_recv throw ◌>>=◌
  send_qmp_cmds-exchanged cmds w w' r h ok =
      let (fd, s) = O.socket w.os in
      let joined = O.connect s fd "127.0.0.1" 4444 in
      let hello = O.recv joined.1 fd in
      elim (Bool-cases (is_negative fd)) [
        | inl e ↦ absurd (ground (arith, e))
        | inr fd_ok ↦ elim (Bool-cases (is_negative joined.0)) [
          | inl e ↦ absurd (ground (arith, e, fd_ok))
          | inr joined_ok ↦ elim (Bool-cases (is_negative hello.0)) [
            | inl e ↦ absurd (ground (arith, e, fd_ok, joined_ok))
            | inr hello_ok ↦
                let qs = record (qmp_socket "127.0.0.1" 4444) { sockfd = fd } in
                let (t, all, closed) =
                  loop-Exchange qs cmds (record w { os = hello.2 }) w' r
                    (ground (arith, fd_ok, joined_ok, hello_ok)) ok in
                (fd, s, t, refl, joined_ok, hello_ok, all, closed)
          ]
        ]
      ]
