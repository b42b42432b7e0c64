-- ===== src/Service/Invariant/Rules.antt =====
-- The rules of `Keeps` for the two invariants, one for each way to change the globals.
use colo_manage_tools.Prelude.{
  ℕ, String, Bool, true, false, Option, none, some, ◌==◌, if◌then◌else◌,
}
use colo_manage_tools.Config.{ColoStatus}
use colo_manage_tools.Platform.{Yaml, Os, ColodDomainStatus}
use colo_manage_tools.Domains
use colo_manage_tools.Domains.{new_status, or_new, lookup-insert, lookup-erase}
use colo_manage_tools.World.{
  World, M, returned, thrown, ◌>>=◌, modify, domain_at, set_domain, erase_domain, set_remote_client,
}
use colo_manage_tools.World.Keeps.{Keeps, IsLocal, final-if, final-set_remote_client}
use colo_manage_tools.Service.Invariant.{IsSound, IsValid, IsReachable}
use colo_manage_tools.Service.Status.{set_peer_init}

pub new_status-IsSound : IsSound new_status
new_status-IsSound = record { roled = λ h. cc; started = λ h. cc }

pub or_new-if :
    (b : Bool) (o p : Option ColodDomainStatus)
    → IsSound (or_new o)
    → IsSound (or_new p)
    → IsSound (or_new (if b then o else p))
or_new-if true o p ho hp = ho
or_new-if false o p ho hp = hp

module _ ⦃Y : Yaml⦄ ⦃O : Os⦄ where
  insert-IsValid :
      (j : String) (d : ColodDomainStatus) (w : World)
      → IsSound d
      → IsValid w
      → IsValid (record w { domains = Domains.insert j d w.domains })
  insert-IsValid j d w hd v = record {
    client = v.client;
    peer = v.peer;
    sound = λ k. rw lookup-insert (or_new-if (j == k) (some d) _ hd (v.sound k));
  }

  -- The changes that both invariants allow.
  pub record IsLax (P : World → Type 0) : Type 0 where
    pub local : IsLocal P
    pub write :
        (j : String) (d : ColodDomainStatus) (w : World)
        → IsSound d
        → P w
        → P (record w { domains = Domains.insert j d w.domains })
    pub drop : (j : String) (w : World) → P w → P (record w { domains = Domains.erase j w.domains })
    pub status : (cs : ColoStatus) (w : World) → P w → P (record w { current_status = cs })
    pub unset : (w : World) → P w → P (record w { peer_init = false })
    pub valid : (w : World) → P w → IsValid w

  pub IsValid-IsLax : IsLax IsValid
  IsValid-IsLax = record {
    local = record {
      os = λ w s v. record { client = v.client; peer = v.peer; sound = v.sound };
      files = λ w fs v. record { client = v.client; peer = v.peer; sound = v.sound };
    };
    write = insert-IsValid;
    drop = λ j w v. record {
      client = v.client;
      peer = v.peer;
      sound = λ k. rw lookup-erase (or_new-if (j == k) none _ new_status-IsSound (v.sound k));
    };
    status = λ cs w v. record { client = v.client; peer = v.peer; sound = v.sound };
    unset = λ w v. record { client = v.client; peer = λ e. cc; sound = v.sound };
    valid = λ w v. v;
  }

  pub IsReachable-IsLax : IsLax IsReachable
  IsReachable-IsLax =
      let l = IsValid-IsLax in
      record {
        local = record {
          os = λ w s r. record { valid = l.local.os w s r.valid; address = r.address };
          files = λ w fs r. record { valid = l.local.files w fs r.valid; address = r.address };
        };
        write = λ j d w h r. record { valid = l.write j d w h r.valid; address = r.address };
        drop = λ j w r. record { valid = l.drop j w r.valid; address = r.address };
        status = λ cs w r. record { valid = l.status cs w r.valid; address = r.address };
        unset = λ w r. record { valid = l.unset w r.valid; address = r.address };
        valid = λ w r. r.valid;
      }

  pub IsValid-IsLocal : IsLocal IsValid
  IsValid-IsLocal = IsValid-IsLax.local

  pub IsReachable-IsLocal : IsLocal IsReachable
  IsReachable-IsLocal = IsReachable-IsLax.local

  module _ {P : World → Type 0} (l : IsLax P) where
    pub Keeps-domain_at : (j : String) → Keeps P (domain_at j)
    unfolding domain_at
    Keeps-domain_at j = record { at = λ w h. l.write j _ w ((l.valid w h).sound j) h }

    pub Keeps-set_domain :
        (j : String) (f : ColodDomainStatus → ColodDomainStatus)
        → ((d : ColodDomainStatus) → IsSound d → IsSound (f d))
        → Keeps P (set_domain j f)
    unfolding set_domain
    Keeps-set_domain j f k = record { at = λ w h. l.write j _ w (k _ ((l.valid w h).sound j)) h }

    pub Keeps-peer_lost : Keeps P (set_peer_init false)
    unfolding modify
    Keeps-peer_lost = record { at = λ w h. l.unset w h }

    pub Keeps-erase_domain : (j : String) → Keeps P (erase_domain j)
    unfolding erase_domain
    Keeps-erase_domain j = record { at = λ w h. l.drop j w h }

    pub Keeps-status : (cs : ColoStatus) → Keeps P (modify (λ w. record w { current_status = cs }))
    unfolding modify
    Keeps-status cs = record { at = λ w h. l.status cs w h }

  -- Where the client has an address the flags may be set.
  pub Keeps-client_init : Keeps IsReachable (modify (λ w. record w { remote_client_init = true }))
  unfolding modify
  Keeps-client_init = record {
    at = λ w r. record {
      valid = record { client = λ e. r.address; peer = r.valid.peer; sound = r.valid.sound };
      address = r.address;
    };
  }

  pub Keeps-peer_init : Keeps IsReachable (set_peer_init true)
  unfolding modify
  Keeps-peer_init = record {
    at = λ w r. record {
      valid = record { client = r.valid.client; peer = λ e. r.address; sound = r.valid.sound };
      address = r.address;
    };
  }

  -- What follows a call of `set_remote_client` runs in a reachable world.
  pub set_remote_client-IsReachable :
      (ip : String) (port : ℕ) (w : World)
      → IsValid w
      → IsReachable (record w { remote_address = some (ip, port) })
  set_remote_client-IsReachable ip port w v = record {
    valid = record { client = λ e h. cc; peer = λ e h. cc; sound = v.sound };
    address = λ h. cc;
  }

  pub Keeps-set_remote_client :
      {A : Type 0} (ip : String) (port : ℕ) (k : M A)
      → Keeps IsReachable k
      → Keeps IsValid (set_remote_client ip port >>= (λ _. k))
  Keeps-set_remote_client ip port k kk = record {
    at = λ w v.
        final-set_remote_client IsValid ip port k w v
          (kk.at _ (set_remote_client-IsReachable ip port w v)).valid;
  }

  -- Also where nothing is known of what follows.
  pub Keeps-new_address : (ip : String) (port : ℕ) → Keeps IsValid (set_remote_client ip port)
  unfolding set_remote_client
  Keeps-new_address ip port = record {
    at = λ w v.
        final-if IsValid (O.is_endpoint w.os ip port) (returned tt _) (thrown w)
          (set_remote_client-IsReachable ip port w v).valid v;
  }
