-- ===== src/Daemon/Lifetime.antt =====
-- A daemon of src/colod.cpp from its start on: the invariant of the service over any sequence of calls.
use mathlib.Core.Option
use mathlib.Core.Path.{subst}
use colo_manage_tools.Prelude.{
  ℤ, String, Bool, true, false, Option, some, List, [], ◌∷◌, map, All, ◌≡◌, ◌≢◌, sym, arith, ◌==◌,
  ◌⊎◌, ◌||◌, not, Bool-cases, eq_iff, inl, inr, Option-cases,
}
use colo_manage_tools.Config.{
  ColoDomainStatus, NodeStatus, colo_domain_status, domain_status, save_file,
}
use colo_manage_tools.Platform.{Yaml, Os, ColodDomainStatus, at}
use colo_manage_tools.Domains
use colo_manage_tools.Domains.{Domains, or_new, lookup-insert}
use colo_manage_tools.World.{World, pure, ◌>>=◌, load_file}
use colo_manage_tools.World.Keeps.{Keeps, final, final-bind, Keeps-pure, Keeps-bind}
use colo_manage_tools.SaveFile.{domains_init}
use colo_manage_tools.SaveFile.Document.{string_at, int_at, bool_at, init_loop}
use colo_manage_tools.SaveFile.Refines.{saved_items}
use colo_manage_tools.Service.Status.{rs_init}
use colo_manage_tools.Service.Peer.{Call}
use colo_manage_tools.Service.Invariant.{IsSound, IsValid}
use colo_manage_tools.Service.Invariant.Rules.{or_new-if, new_status-IsSound}
use colo_manage_tools.Service.Invariant.Serve.{IsSoundCall, Keeps-serve}
use colo_manage_tools.Server.{Rpc, IsRpc, ColodServer, colod_server, server_init, message}
use colo_manage_tools.Server.Bound.{handle-message}
use colo_manage_tools.Daemon.{
  Process, Answers, Start, exited, detached, after_start, colod_daemon, boot, run, serve_messages,
  colod_main,
}

module _ ⦃Y : Yaml⦄ where
  -- An entry of the save file that a start of the daemon can take: a colo-enabled one has a role, and
  -- none has the name that would be read as the status of a domain in colo mode.
  pub record IsSoundEntry (e : Y.Node) : Type 0 where
    pub named : string_at e "name" ≢ some "colo-enabled"
    pub roled :
        bool_at e "colo_enable" ≡ some true
        → (s : String) → string_at e "colo_status" ≡ some s
        → colo_domain_status s ≢ ColoDomainStatus.none

  abbrev AreSound : Domains → Type 0
  AreSound ds_map = (k : String) → IsSound (Domains.get k ds_map)

  insert-AreSound :
      (name : String) (ds : ColodDomainStatus) (ds_map : Domains)
      → IsSound ds
      → AreSound ds_map
      → AreSound (Domains.insert name ds ds_map)
  insert-AreSound name ds ds_map h all =
      λ k. rw lookup-insert (or_new-if (name == k) (some ds) _ h (all k))

  -- The record that `domains_init` makes of an entry.
  entry-IsSound :
      (e : Y.Node) (name colo : String) (pid : ℤ) (flag : Bool)
      → IsSoundEntry e
      → string_at e "name" ≡ some name
      → bool_at e "colo_enable" ≡ some flag
      → string_at e "colo_status" ≡ some colo
      → IsSound (record {
        pid = pid;
        name = name;
        status = domain_status name;
        colo_enable = flag;
        colo_status = colo_domain_status colo;
        config_file_path = "";
      })
  unfolding domain_status
  entry-IsSound e name colo pid flag h n f c = record {
    roled = λ on none_role. h.roled (ground (arith, f, on)) colo c none_role;
    started = λ on. absurd (h.named (ground (arith, n, on, eq_iff name "colo-enabled")));
  }

  init_loop-AreSound :
      (es : List Y.Node) (ds_map ds_map' : Domains)
      → All IsSoundEntry es
      → AreSound ds_map
      → init_loop es ds_map ≡ some ds_map'
      → AreSound ds_map'
  unfolding init_loop
  init_loop-AreSound [] ds_map ds_map' h all e =
      let same : ds_map ≡ ds_map' = ground (arith, e) in subst AreSound same all
  init_loop-AreSound (e ∷ es) ds_map ds_map' h all ran = elim (Option-cases (string_at e "name")) [
    | inr bad ↦ absurd (ground (arith, ran, bad))
    | inl (name, n) ↦ elim (Option-cases (int_at e "pid")) [
      | inr bad ↦ absurd (ground (arith, ran, n, bad))
      | inl (pid, p) ↦ elim (Option-cases (bool_at e "colo_enable")) [
        | inr bad ↦ absurd (ground (arith, ran, n, p, bad))
        | inl (flag, f) ↦ elim (Option-cases (string_at e "colo_status")) [
          | inr bad ↦ absurd (ground (arith, ran, n, p, f, bad))
          | inl (colo, c) ↦
              init_loop-AreSound es _ ds_map' h.1
                (insert-AreSound name _ ds_map (entry-IsSound e name colo pid flag h.0 n f c) all)
                (ground (arith, ran, n, p, f, c))
        ]
      ]
    ]
  ]

module _ ⦃Y : Yaml⦄ ⦃O : Os⦄ where
  -- What the start needs of the world.
  record IsFresh (w : World) : Type 0 where
    entries : All IsSoundEntry (saved_items w)
    valid : IsValid w

  -- A start reads the whole list or leaves the domains alone.
  domains_init-run :
      (w : World)
      → (final (domains_init w) ≡ w)
        ⊎ ((ds_map : Domains) × (init_loop (saved_items w) w.domains ≡ some ds_map)
            × (final (domains_init w) ≡ record w { domains = ds_map }))
  unfolding domains_init load_file at saved_items ◌>>=◌
  domains_init-run w = elim (Option-cases (Option.bind (w.files save_file) Y.load)) [
    | inr bad ↦ inl (ground (arith, bad))
    | inl (sf, good) ↦ elim (Option-cases (init_loop (Y.items (Y.field sf "domains")) w.domains)) [
      | inr bad ↦ inl (ground (arith, good, bad))
      | inl (ds_map, ran) ↦
          elim (Bool-cases (
            Y.is_scalar sf
            || not (Y.is_defined (Y.field sf "domains"))
            || Y.is_null (Y.field sf "domains"))) [
              | inl stop ↦ inl (ground (arith, good, stop))
              | inr read ↦
                  inr (ds_map, ground (arith, good, ran, read), ground (arith, good, ran, read))
            ]
    ]
  ]

  domains_init-IsValid : (w : World) → IsFresh w → IsValid (final (domains_init w))
  domains_init-IsValid w h = elim (domains_init-run w) [
    | inl same ↦ subst IsValid (sym same) h.valid
    | inr (ds_map, ran, left) ↦ subst IsValid (sym left) (record {
      client = h.valid.client;
      peer = h.valid.peer;
      sound = init_loop-AreSound (saved_items w) w.domains ds_map h.entries h.valid.sound ran;
    })
  ]

  rs_init-IsValid : (w : World) → IsFresh w → IsValid (final (rs_init w))
  unfolding rs_init ◌>>=◌ saved_items
  rs_init-IsValid w h =
      let w0 : World = record w {
        current_status = record w.current_status { local_status = NodeStatus.none };
        peer_init = false;
      } in
      let fresh : IsFresh w0 = record {
        entries = h.entries;
        valid = record { client = h.valid.client; peer = λ e. cc; sound = h.valid.sound };
      } in
      final-bind {P = IsValid} domains_init _ w0 (λ r. Keeps-pure tt)
        (domains_init-IsValid w0 fresh)

  module _ (R : Rpc) (L : IsRpc R) where
    abbrev server : ℤ → ColodServer R
    server pid = server_init R (colod_server R pid 5678)

    Keeps-run :
        (pid : ℤ) (cs : List Call)
        → All IsSoundCall cs
        → Keeps IsValid (run R (server pid) (map message cs))
    unfolding run
    Keeps-run pid [] h = Keeps-pure _
    Keeps-run pid (c ∷ cs) h = rw (handle-message R L pid 5678 c) (
        Keeps-bind _ _ (Keeps-bind _ _ (Keeps-serve c h.0) (λ ret. Keeps-pure _))
          (λ a. Keeps-bind _ _ (Keeps-run pid cs h.1) (λ rest. Keeps-pure _)))

    serve_messages-IsValid :
        (pid : ℤ) (cs : List Call) (w : World)
        → All IsSoundCall cs
        → IsFresh w
        → IsValid (final (serve_messages R pid (map message cs) w))
    unfolding serve_messages
    serve_messages-IsValid pid cs w h f =
        final-bind {P = IsValid} rs_init _ w (λ r. Keeps-run pid cs h) (rs_init-IsValid w f)

    after_start-IsValid :
        (s : Start) (cs : List Call) (w : World)
        → All IsSoundCall cs
        → IsFresh w
        → IsValid (final (after_start R s (map message cs) w))
    unfolding after_start pure
    after_start-IsValid (exited code lines) cs w h f = f.valid
    after_start-IsValid (detached pid p) cs w h f = serve_messages-IsValid pid cs w h f

  boot-IsFresh :
      (files : String → Option Y.Text) (os : O.State)
      → All IsSoundEntry (saved_items (boot files os))
      → IsFresh (boot files os)
  unfolding Domains.lookup
  boot-IsFresh files os h = record {
    entries = h;
    valid = record { client = λ e. cc; peer = λ e. cc; sound = λ k. new_status-IsSound };
  }

  -- A daemon that is started on any files, and is sent the messages of any calls in any order, ends
  -- its run, also where an exception ends it, in a world in which the RPC client has an address
  -- wherever a flag says that the peer is connected, every colo-enabled domain has a role, and every
  -- domain that runs in colo mode has the pid of a process. In the save file that it starts on, an
  -- entry that is colo-enabled must have a role, and none may have the name "colo-enabled"; a domain
  -- record that a peer sends must be sound; and a name of the RPC library must have the procedure
  -- that it was bound to last.
  pub colod_main-IsValid :
      (R : Rpc) (a : Answers) (p : Process) (files : String → Option Y.Text) (os : O.State)
      (cs : List Call)
      → IsRpc R
      → All IsSoundEntry (saved_items (boot files os))
      → All IsSoundCall cs
      → IsValid (final (colod_main R a p (map message cs) (boot files os)))
  unfolding colod_main
  colod_main-IsValid R a p files os cs L entries sound =
      after_start-IsValid R L (colod_daemon a p) cs (boot files os) sound
        (boot-IsFresh files os entries)
