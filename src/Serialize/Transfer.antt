-- ===== src/Serialize/Transfer.antt =====
-- What is written by the operators of the structs is read back by them.
use colo_manage_tools.Prelude.{Bool, List, [], ◌∷◌, ◌++◌, ◌≡◌, refl, arith}
use mathlib.Core.List.{append_assoc}
use colo_manage_tools.Config.{NodeStatus, DomainStatus, ColoDomainStatus, ColoStatus}
use colo_manage_tools.Platform.{ColodDomainStatus, RetVal}
use colo_manage_tools.Serialize.{
  Item, int, text, flag, node, domain, role, Serializer, Fits, IsSerializer, write_colo_status,
  read_colo_status, write_domain_status, read_domain_status, write_ret_val, read_ret_val,
}

-- The texts and numbers of a struct fit.
pub record StatusFits (cs : ColoStatus) : Type 0 where
  pub port : Fits (int cs.port)
  pub host_ip : Fits (text cs.host_ip)
  pub host_user : Fits (text cs.host_user)
  pub host_file_path : Fits (text cs.host_file_path)
  pub peer_ip : Fits (text cs.peer_ip)
  pub peer_user : Fits (text cs.peer_user)
  pub peer_file_path : Fits (text cs.peer_file_path)

pub record DomainFits (ds : ColodDomainStatus) : Type 0 where
  pub pid : Fits (int ds.pid)
  pub name : Fits (text ds.name)
  pub config_file_path : Fits (text ds.config_file_path)

pub record ReplyFits (r : RetVal) : Type 0 where
  pub code : Fits (int r.code)
  pub msg : Fits (text r.msg)

-- The values that a struct is sent as.
abbrev status_items : ColoStatus → List Item
status_items cs =
    node cs.local_status
    ∷ int cs.port
    ∷ text cs.host_ip
    ∷ text cs.host_user
    ∷ text cs.host_file_path
    ∷ text cs.peer_ip
    ∷ text cs.peer_user
    ∷ text cs.peer_file_path
    ∷ []

abbrev domain_items : ColodDomainStatus → List Item
domain_items ds =
    int ds.pid
    ∷ text ds.name
    ∷ domain ds.status
    ∷ flag ds.colo_enable
    ∷ role ds.colo_status
    ∷ text ds.config_file_path
    ∷ []

abbrev reply_items : RetVal → List Item
reply_items r = int r.code ∷ text r.msg ∷ []

module _ (S : Serializer) (L : IsSerializer S) where
  -- An enumerator or a flag always fits.
  contents-write_node :
      (b : S.Buffer) (s : NodeStatus)
      → L.contents (S.write b (node s)) ≡ L.contents b ++ node s ∷ []
  contents-write_node b s = L.contents-write b (node s) tt

  contents-write_domain :
      (b : S.Buffer) (s : DomainStatus)
      → L.contents (S.write b (domain s)) ≡ L.contents b ++ domain s ∷ []
  contents-write_domain b s = L.contents-write b (domain s) tt

  contents-write_role :
      (b : S.Buffer) (s : ColoDomainStatus)
      → L.contents (S.write b (role s)) ≡ L.contents b ++ role s ∷ []
  contents-write_role b s = L.contents-write b (role s) tt

  contents-write_flag :
      (b : S.Buffer) (f : Bool) → L.contents (S.write b (flag f)) ≡ L.contents b ++ flag f ∷ []
  contents-write_flag b f = L.contents-write b (flag f) tt

  contents-write_colo_status :
      (b : S.Buffer) (cs : ColoStatus)
      → StatusFits cs
      → L.contents (write_colo_status S b cs) ≡ L.contents b ++ status_items cs
  unfolding write_colo_status
  contents-write_colo_status b cs f = simp (
    L.contents-write, contents-write_node, append_assoc, f.port, f.host_ip, f.host_user,
    f.host_file_path, f.peer_ip, f.peer_user, f.peer_file_path,
  )

  contents-write_domain_status :
      (b : S.Buffer) (ds : ColodDomainStatus)
      → DomainFits ds
      → L.contents (write_domain_status S b ds) ≡ L.contents b ++ domain_items ds
  unfolding write_domain_status
  contents-write_domain_status b ds f = simp (
    L.contents-write, contents-write_domain, contents-write_role, contents-write_flag, append_assoc,
    f.pid, f.name, f.config_file_path,
  )

  contents-write_ret_val :
      (b : S.Buffer) (r : RetVal)
      → ReplyFits r
      → L.contents (write_ret_val S b r) ≡ L.contents b ++ reply_items r
  unfolding write_ret_val
  contents-write_ret_val b r f =
      rw (L.contents-write _ _ f.msg, L.contents-write _ _ f.code)
        (append_assoc (L.contents b) (int r.code ∷ []) (text r.msg ∷ []))

  read_ret_val-items :
      (b : S.Buffer) (r : RetVal) (rest : List Item)
      → L.contents b ≡ reply_items r ++ rest
      → ((read_ret_val S b).0 ≡ r) × (L.contents (read_ret_val S b).1 ≡ rest)
  unfolding read_ret_val
  read_ret_val-items b r rest e =
      let (v1, e1) = L.read_int-int b _ _ e in
      let (v2, e2) = L.read_text-text _ _ _ e1 in (ground (arith, v1, v2), e2)

  read_colo_status-items :
      (b : S.Buffer) (cs : ColoStatus) (rest : List Item)
      → L.contents b ≡ status_items cs ++ rest
      → ((read_colo_status S b).0 ≡ cs) × (L.contents (read_colo_status S b).1 ≡ rest)
  unfolding read_colo_status
  read_colo_status-items b cs rest e =
      let (v1, e1) = L.read_node-node b _ _ e in
      let (v2, e2) = L.read_int-int _ _ _ e1 in
      let (v3, e3) = L.read_text-text _ _ _ e2 in
      let (v4, e4) = L.read_text-text _ _ _ e3 in
      let (v5, e5) = L.read_text-text _ _ _ e4 in
      let (v6, e6) = L.read_text-text _ _ _ e5 in
      let (v7, e7) = L.read_text-text _ _ _ e6 in
      let (v8, e8) = L.read_text-text _ _ _ e7 in
      (ground (arith, v1, v2, v3, v4, v5, v6, v7, v8), e8)

  read_domain_status-items :
      (b : S.Buffer) (ds : ColodDomainStatus) (rest : List Item)
      → L.contents b ≡ domain_items ds ++ rest
      → ((read_domain_status S b).0 ≡ ds) × (L.contents (read_domain_status S b).1 ≡ rest)
  unfolding read_domain_status
  read_domain_status-items b ds rest e =
      let (v1, e1) = L.read_int-int b _ _ e in
      let (v2, e2) = L.read_text-text _ _ _ e1 in
      let (v3, e3) = L.read_domain-domain _ _ _ e2 in
      let (v4, e4) = L.read_flag-flag _ _ _ e3 in
      let (v5, e5) = L.read_role-role _ _ _ e4 in
      let (v6, e6) = L.read_text-text _ _ _ e5 in (ground (arith, v1, v2, v3, v4, v5, v6), e6)

  -- A status, a domain and a reply that were written onto an empty buffer, one after the other, are
  -- read back in this order with all their fields, and the buffer is empty again. Every text of them
  -- must be shorter than 65536 bytes, since its length is sent in 16 bits, every number must be an
  -- `int` of 32 bits, and the serializer must be a queue of the values that fit.
  pub transfer-read :
      (b : S.Buffer) (cs : ColoStatus) (ds : ColodDomainStatus) (r : RetVal)
      → L.contents b ≡ []
      → StatusFits cs
      → DomainFits ds
      → ReplyFits r
      → let b1 = write_ret_val S (write_domain_status S (write_colo_status S b cs) ds) r in
        let (cs', b2) = read_colo_status S b1 in
        let (ds', b3) = read_domain_status S b2 in
        let (r', b4) = read_ret_val S b3 in
        (cs' ≡ cs) × (ds' ≡ ds) × (r' ≡ r) × (L.contents b4 ≡ [])
  transfer-read b cs ds r e fc fd fr =
      let b1 = write_ret_val S (write_domain_status S (write_colo_status S b cs) ds) r in
      let full : L.contents b1 ≡ status_items cs ++ domain_items ds ++ reply_items r =
        rw
          (
            contents-write_ret_val _ r fr,
            contents-write_domain_status _ ds fd,
            contents-write_colo_status b cs fc,
            e,
          )
          refl in
      let (cs_e, e1) = read_colo_status-items b1 cs _ full in
      let (ds_e, e2) = read_domain_status-items _ ds _ e1 in
      let (r_e, e3) = read_ret_val-items _ r [] e2 in (cs_e, ds_e, r_e, e3)
