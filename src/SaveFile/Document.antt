-- ===== src/SaveFile/Document.antt =====
-- src/utils/config_parser.cpp and src/utils/domain.cpp: the loops over the list `domains` of the save
-- file, as functions of the document.
use colo_manage_tools.Prelude.{
  ℕ, suc, ℤ, pos, minus_one, String, Bool, true, false, not, ◌||◌, Option, none, some, List, [],
  ◌∷◌, ◌==◌, if◌then◌else◌,
}
use colo_manage_tools.Prelude.Throws.{◌>>=◌}
use colo_manage_tools.Config.{ColoStatus, node_status, node_status_name}
use colo_manage_tools.Config.{
  ColoDomainStatus, domain_status, colo_domain_status, colo_domain_status_name, colod_port,
}
use colo_manage_tools.Platform.{Yaml, ColodDomainStatus, at, set_at}
use colo_manage_tools.Domains
use colo_manage_tools.Domains.{Domains}

abbrev Setter : Type 0
Setter = String → ColoStatus → ColoStatus

-- The fields that `parse_config_file` reads after `local_status`, in its order.
abbrev config_fields : List (String × Setter)
config_fields =
    ("host_ip", λ s cs. record cs { host_ip = s })
    ∷ ("host_user", λ s cs. record cs { host_user = s })
    ∷ ("host_file_path", λ s cs. record cs { host_file_path = s })
    ∷ ("peer_ip", λ s cs. record cs { peer_ip = s })
    ∷ ("peer_user", λ s cs. record cs { peer_user = s })
    ∷ ("peer_file_path", λ s cs. record cs { peer_file_path = s })
    ∷ []

module _ ⦃Y : Yaml⦄ where
  -- node[key].as<std::string>()
  unfoldable pub string_at : Y.Node → String → Option String
  unfolding at
  string_at n key = at n key >>= Y.as_string

  -- node[key].as<int>(), node[key].as<bool>()
  unfoldable pub int_at : Y.Node → String → Option ℤ
  unfolding at
  int_at n key = at n key >>= Y.as_int

  unfoldable pub bool_at : Y.Node → String → Option Bool
  unfolding at
  bool_at n key = at n key >>= Y.as_bool

  read_fields : Y.Node → List (String × Setter) → ColoStatus → Option (ℤ × ColoStatus)
  unfolding at
  read_fields colo [] cs = some (pos 0, cs)
  read_fields colo ((key, assign) ∷ rest) cs = do
    n ← at colo key
    if not (Y.is_defined n)
        then some (minus_one, cs)
        else do s ← Y.as_string n; read_fields colo rest (assign s cs)

  -- parse_config_file, on the document; what was assigned before a field is missing stays assigned.
  unfoldable pub parse_config : Y.Node → ColoStatus → Option (ℤ × ColoStatus)
  unfolding at read_fields
  parse_config config cs = do
    colo ← at config "colo"
    if not (Y.is_defined colo) then some (minus_one, cs) else do
      status ← at colo "local_status"
      if not (Y.is_defined status) then some (minus_one, cs) else do
        s ← Y.as_string status
        read_fields colo config_fields (record cs { local_status = node_status s })

  -- The node `ss` of `save_colo_status`.
  unfoldable pub status_node : ColoStatus → Y.Node
  status_node cs =
      let put = λ (k v : String) (n : Y.Node). Y.set_field n k (Y.of_string v) in
      put "peer_file_path" cs.peer_file_path (
        put "host_file_path" cs.host_file_path (
          put "peer_user" cs.peer_user (
            put "host_user" cs.host_user (
              put "peer_ip" cs.peer_ip (
                put "host_ip" cs.host_ip (
                  Y.set_field (put "local_status" (node_status_name cs.local_status) Y.empty)
                    "colod_port" (Y.of_int (pos colod_port))))))))

  -- save_colo_status, on the document
  unfoldable pub with_status : ColoStatus → Y.Node → Option Y.Node
  unfolding set_at status_node
  with_status cs sf = set_at sf "save_status" (status_node cs)

  -- get_connect_status(cs), on the document
  unfoldable pub read_status : Y.Node → ColoStatus → Option ColoStatus
  unfolding string_at at
  read_status sf cs = do
    ss ← at sf "save_status"
    host_ip ← string_at ss "host_ip"
    host_user ← string_at ss "host_user"
    host_file_path ← string_at ss "host_file_path"
    peer_ip ← string_at ss "peer_ip"
    peer_user ← string_at ss "peer_user"
    peer_file_path ← string_at ss "peer_file_path"
    some (record cs {
      host_ip = host_ip;
      host_user = host_user;
      host_file_path = host_file_path;
      peer_ip = peer_ip;
      peer_user = peer_user;
      peer_file_path = peer_file_path;
    })

  -- The node `dom` of `save_domain_info`.
  unfoldable pub domain_node : ColodDomainStatus → Y.Node
  domain_node ds =
      let put = λ (k : String) (v n : Y.Node). Y.set_field n k v in
      put "colo_status" (Y.of_string "none") (
        put "colo_enable" (Y.of_bool false) (
          put "status" (Y.of_string "shutoff") (
            put "pid" (Y.of_int minus_one) (
              put "path" (Y.of_string ds.config_file_path)
                (put "name" (Y.of_string ds.name) Y.empty)))))

  -- The loop of `save_domain_info`: the list, and whether an entry was replaced.
  unfoldable pub redefine_loop :
      String → Y.Node → List Y.Node → ℕ → Y.Node → Bool → Option (Y.Node × Bool)
  redefine_loop name dom [] i doms redefined = some (doms, redefined)
  redefine_loop name dom (e ∷ rest) i doms redefined = do
    n ← string_at e "name"
    let same = name == n
    redefine_loop name dom rest (suc i) (if same then Y.set_item doms i dom else doms)
        (redefined || same)

  -- The loop of `vm_undefine`: the entries that are kept, whether one is dropped, and whether a
  -- dropped one was colo-enabled.
  unfoldable pub undefine_loop :
      String → List Y.Node → Y.Node → Bool → Bool → Option (Y.Node × Bool × Bool)
  undefine_loop name [] kept rm colo = some (kept, rm, colo)
  undefine_loop name (e ∷ rest) kept rm colo = do
    n ← string_at e "name"
    if name == n
        then (do b ← bool_at e "colo_enable"; undefine_loop name rest kept true (colo || b))
        else undefine_loop name rest (Y.push_back kept e) rm colo

  -- The loop of `save_domain_pid` and `remove_domain_pid`: the first entry of the name is changed.
  unfoldable pub mark_loop : String → (Y.Node → Y.Node) → List Y.Node → ℕ → Y.Node → Option Y.Node
  mark_loop name change [] i doms = some doms
  mark_loop name change (e ∷ rest) i doms = do
    n ← string_at e "name"
    let more = mark_loop name change rest (suc i) doms
    if n == name then some (Y.set_item doms i (change e)) else more

  -- The assignments of `save_domain_pid`, and those of `remove_domain_pid`.
  abbrev pub mark_running : ℤ → Y.Node → Y.Node
  mark_running pid e =
      Y.set_field (Y.set_field e "pid" (Y.of_int pid)) "status" (Y.of_string "running")

  abbrev pub mark_shut_off : Y.Node → Y.Node
  mark_shut_off e =
      Y.set_field (Y.set_field e "pid" (Y.of_int minus_one)) "status" (Y.of_string "shutoff")

  -- The assignments of `set_domain_colo_enable`, and that of `set_domain_colo_disable`.
  abbrev pub mark_colo : ColoDomainStatus → Y.Node → Y.Node
  mark_colo cds e =
      Y.set_field (Y.set_field e "colo_enable" (Y.of_bool true)) "colo_status"
        (Y.of_string (colo_domain_status_name cds))

  abbrev pub unmark_colo : Y.Node → Y.Node
  unmark_colo e = Y.set_field e "colo_enable" (Y.of_bool false)

  -- The loop of `set_domain_colo_enable` and `set_domain_colo_disable`; the inner `none` is the
  -- return of -1 at a domain that is not shut off.
  unfoldable pub flag_loop :
      String → (Y.Node → Y.Node) → List Y.Node → ℕ → Y.Node → Option (Option Y.Node)
  flag_loop name change [] i doms = some (some doms)
  flag_loop name change (e ∷ rest) i doms = do
    n ← string_at e "name"
    let more = flag_loop name change rest (suc i) doms
    if n == name
        then (do
          status ← string_at e "status"
          some (if status == "shutoff" then some (Y.set_item doms i (change e)) else none))
        else more

  -- The loop of `get_domain_pid`: the pid of the first entry of the name.
  unfoldable pub pid_loop : String → List Y.Node → Option (Option ℤ)
  pid_loop name [] = some none
  pid_loop name (e ∷ rest) = do
    n ← string_at e "name"
    let more = pid_loop name rest
    if name == n then (do p ← int_at e "pid"; some (some p)) else more

  -- The loop of `get_domain_config_file_path`.
  unfoldable pub path_loop : String → List Y.Node → Option (Option String)
  path_loop name [] = some none
  path_loop name (e ∷ rest) = do
    n ← string_at e "name"
    let more = path_loop name rest
    if name == n then (do p ← string_at e "path"; some (some p)) else more

  -- The loop of `domains_init`. It looks the status up by the domain's name.
  unfoldable pub init_loop : List Y.Node → Domains → Option Domains
  unfolding Domains.insert
  init_loop [] ds_map = some ds_map
  init_loop (e ∷ rest) ds_map = do
    name ← string_at e "name"
    pid ← int_at e "pid"
    flag ← bool_at e "colo_enable"
    status_name ← string_at e "name"
    colo_name ← string_at e "colo_status"
    let ds : ColodDomainStatus = record {
      pid = pid;
      name = name;
      status = domain_status status_name;
      colo_enable = flag;
      colo_status = colo_domain_status colo_name;
      config_file_path = "";
    }
    init_loop rest (Domains.insert name ds ds_map)
