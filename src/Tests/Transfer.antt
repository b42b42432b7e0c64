-- ===== src/Tests/Transfer.antt =====
-- A serializer that keeps the values in a list, and structs sent through it.
use colo_manage_tools.Prelude.{ℤ, pos, String, Bool, false, List, [], ◌∷◌, ◌++◌, ◌≡◌, refl, arith}
use colo_manage_tools.Config.{NodeStatus, DomainStatus, ColoDomainStatus}
use colo_manage_tools.Platform.{ColodDomainStatus, RetVal}
use colo_manage_tools.Serialize.{
  Item, int, text, flag, node, domain, role, Serializer, IsSerializer, read_colo_status,
  read_domain_status, read_ret_val, write_colo_status, write_domain_status, write_ret_val,
}
use colo_manage_tools.Serialize.Transfer.{StatusFits, DomainFits, ReplyFits, transfer-read}
use colo_manage_tools.Tests.Data.{primary_node, vm_record}

abbrev read_int : List Item → ℤ × List Item
read_int (int i ∷ b) = (i, b)
read_int b = (pos 0, b)

abbrev read_text : List Item → String × List Item
read_text (text s ∷ b) = (s, b)
read_text b = ("", b)

abbrev read_flag : List Item → Bool × List Item
read_flag (flag f ∷ b) = (f, b)
read_flag b = (false, b)

abbrev read_node : List Item → NodeStatus × List Item
read_node (node s ∷ b) = (s, b)
read_node b = (NodeStatus.none, b)

abbrev read_domain : List Item → DomainStatus × List Item
read_domain (domain s ∷ b) = (s, b)
read_domain b = (DomainStatus.shut_off, b)

abbrev read_role : List Item → ColoDomainStatus × List Item
read_role (role s ∷ b) = (s, b)
read_role b = (ColoDomainStatus.none, b)

abbrev queue : Serializer
queue = record {
  Buffer = List Item;
  write = λ b i. b ++ i ∷ [];
  read_int = read_int;
  read_text = read_text;
  read_flag = read_flag;
  read_node = read_node;
  read_domain = read_domain;
  read_role = read_role;
}

queue-IsSerializer : IsSerializer queue
queue-IsSerializer = record {
  contents = λ b. b;
  contents-write = λ b i f. refl;
  read_int-int = λ b i rest e. ground (arith, e);
  read_text-text = λ b s rest e. ground (arith, e);
  read_flag-flag = λ b f rest e. ground (arith, e);
  read_node-node = λ b s rest e. ground (arith, e);
  read_domain-domain = λ b s rest e. ground (arith, e);
  read_role-role = λ b s rest e. ground (arith, e);
}

abbrev vm : ColodDomainStatus
vm = vm_record DomainStatus.running ColoDomainStatus.primary

abbrev reply : RetVal
reply = record { code = pos 0; msg = "ok" }

primary_node-fits : StatusFits primary_node
primary_node-fits = omega arith

vm-fits : DomainFits vm
vm-fits = omega arith

reply-fits : ReplyFits reply
reply-fits = omega arith

transfer-read_example :
    let b1 =
      write_ret_val queue
        (write_domain_status queue (write_colo_status queue [] primary_node) vm)
        reply in
    let (cs', b2) = read_colo_status queue b1 in
    let (ds', b3) = read_domain_status queue b2 in
    let (r', b4) = read_ret_val queue b3 in
    (cs' ≡ primary_node) × (ds' ≡ vm) × (r' ≡ reply) × (queue-IsSerializer.contents b4 ≡ [])
unfolding queue-IsSerializer
transfer-read_example =
    transfer-read queue queue-IsSerializer [] primary_node vm reply refl primary_node-fits vm-fits
      reply-fits
