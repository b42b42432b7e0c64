-- ===== src/Serialize.antt =====
-- The operators `<<` and `>>` of include/config.h, include/colod.h and include/colod_service.h, by
-- which the RPC library sends the structs of the program. include/Serializer.hpp is third-party code:
-- its buffer is a parameter.
pub mod Transfer
use Prim.Native.String.{len}
use colo_manage_tools.Prelude.{ℕ, ◌<◌, ◌≤◌, ℤ, pos, negsuc, String, Bool, List, [], ◌∷◌, ◌++◌, ◌≡◌}
use colo_manage_tools.Config.{NodeStatus, DomainStatus, ColoDomainStatus, ColoStatus}
use colo_manage_tools.Platform.{ColodDomainStatus, RetVal}

-- A value of one of the types that the operators write.
pub data Item : Type 0 where
  int : ℤ → Item
  text : String → Item
  flag : Bool → Item
  node : NodeStatus → Item
  domain : DomainStatus → Item
  role : ColoDomainStatus → Item

-- `Serializer`: its own `<<` at each type, and its own `>>` into a fresh variable of each type.
pub record Serializer : Type 1 where
  pub Buffer : Type 0
  pub write : Buffer → Item → Buffer
  pub read_int : Buffer → ℤ × Buffer
  pub read_text : Buffer → String × Buffer
  pub read_flag : Buffer → Bool × Buffer
  pub read_node : Buffer → NodeStatus × Buffer
  pub read_domain : Buffer → DomainStatus × Buffer
  pub read_role : Buffer → ColoDomainStatus × Buffer

-- What a buffer can hold of a value: an `int` has 32 bits, and a text has its length in 16 bits.
abbrev pub Fits : Item → Type 0
Fits (int (pos n)) = n < 2147483648
Fits (int (negsuc n)) = n < 2147483648
Fits (text s) = len s < 65536
Fits _ = Unit

-- A buffer is a queue of the values that fit.
pub record IsSerializer (S : Serializer) : Type 0 where
  pub contents : S.Buffer → List Item
  pub contents-write :
      (b : S.Buffer) (i : Item) → Fits i → contents (S.write b i) ≡ contents b ++ i ∷ []
  pub read_int-int :
      (b : S.Buffer) (i : ℤ) (rest : List Item)
      → contents b ≡ int i ∷ rest
      → ((S.read_int b).0 ≡ i) × (contents (S.read_int b).1 ≡ rest)
  pub read_text-text :
      (b : S.Buffer) (s : String) (rest : List Item)
      → contents b ≡ text s ∷ rest
      → ((S.read_text b).0 ≡ s) × (contents (S.read_text b).1 ≡ rest)
  pub read_flag-flag :
      (b : S.Buffer) (f : Bool) (rest : List Item)
      → contents b ≡ flag f ∷ rest
      → ((S.read_flag b).0 ≡ f) × (contents (S.read_flag b).1 ≡ rest)
  pub read_node-node :
      (b : S.Buffer) (s : NodeStatus) (rest : List Item)
      → contents b ≡ node s ∷ rest
      → ((S.read_node b).0 ≡ s) × (contents (S.read_node b).1 ≡ rest)
  pub read_domain-domain :
      (b : S.Buffer) (s : DomainStatus) (rest : List Item)
      → contents b ≡ domain s ∷ rest
      → ((S.read_domain b).0 ≡ s) × (contents (S.read_domain b).1 ≡ rest)
  pub read_role-role :
      (b : S.Buffer) (s : ColoDomainStatus) (rest : List Item)
      → contents b ≡ role s ∷ rest
      → ((S.read_role b).0 ≡ s) × (contents (S.read_role b).1 ≡ rest)

module _ (S : Serializer) where
  -- out << cs, and in >> cs, of include/config.h
  unfoldable pub write_colo_status : S.Buffer → ColoStatus → S.Buffer
  write_colo_status out cs =
      let b1 = S.write out (node cs.local_status) in
      let b2 = S.write b1 (int cs.port) in
      let b3 = S.write b2 (text cs.host_ip) in
      let b4 = S.write b3 (text cs.host_user) in
      let b5 = S.write b4 (text cs.host_file_path) in
      let b6 = S.write b5 (text cs.peer_ip) in
      let b7 = S.write b6 (text cs.peer_user) in S.write b7 (text cs.peer_file_path)

  unfoldable pub read_colo_status : S.Buffer → ColoStatus × S.Buffer
  read_colo_status in0 =
      let (local_status, b1) = S.read_node in0 in
      let (port, b2) = S.read_int b1 in
      let (host_ip, b3) = S.read_text b2 in
      let (host_user, b4) = S.read_text b3 in
      let (host_file_path, b5) = S.read_text b4 in
      let (peer_ip, b6) = S.read_text b5 in
      let (peer_user, b7) = S.read_text b6 in
      let (peer_file_path, b8) = S.read_text b7 in
      (
        record {
          local_status = local_status;
          port = port;
          host_ip = host_ip;
          host_user = host_user;
          host_file_path = host_file_path;
          peer_ip = peer_ip;
          peer_user = peer_user;
          peer_file_path = peer_file_path;
        },
        b8,
      )

  -- out << cds, and in >> cds, of include/colod.h
  unfoldable pub write_domain_status : S.Buffer → ColodDomainStatus → S.Buffer
  write_domain_status out cds =
      let b1 = S.write out (int cds.pid) in
      let b2 = S.write b1 (text cds.name) in
      let b3 = S.write b2 (domain cds.status) in
      let b4 = S.write b3 (flag cds.colo_enable) in
      let b5 = S.write b4 (role cds.colo_status) in S.write b5 (text cds.config_file_path)

  unfoldable pub read_domain_status : S.Buffer → ColodDomainStatus × S.Buffer
  read_domain_status in0 =
      let (pid, b1) = S.read_int in0 in
      let (name, b2) = S.read_text b1 in
      let (status, b3) = S.read_domain b2 in
      let (colo_enable, b4) = S.read_flag b3 in
      let (colo_status, b5) = S.read_role b4 in
      let (config_file_path, b6) = S.read_text b5 in
      (
        record {
          pid = pid;
          name = name;
          status = status;
          colo_enable = colo_enable;
          colo_status = colo_status;
          config_file_path = config_file_path;
        },
        b6,
      )

  -- out << r, and in >> r, of include/colod_service.h
  unfoldable pub write_ret_val : S.Buffer → RetVal → S.Buffer
  write_ret_val out r = S.write (S.write out (int r.code)) (text r.msg)

  unfoldable pub read_ret_val : S.Buffer → RetVal × S.Buffer
  read_ret_val in0 =
      let (code, b1) = S.read_int in0 in
      let (msg, b2) = S.read_text b1 in (record { code = code; msg = msg }, b2)
