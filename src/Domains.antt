-- ===== src/Domains.antt =====
-- `std::unordered_map<std::string, colod_domain_status>` (include/colod.h): an association list.
use colo_manage_tools.Prelude.{
  pos, String, false, Option, none, some, List, [], ◌∷◌, ◌≡◌, refl, arith, ◌==◌, eq_iff, eq_refl,
  if◌then◌else◌,
}
use colo_manage_tools.Config.{DomainStatus, ColoDomainStatus}
use colo_manage_tools.Platform.{ColodDomainStatus}

abbrev pub Domains : Type 0
Domains = List (String × ColodDomainStatus)

-- What `operator[]` puts in place of a key that is not there: a value-initialised struct.
abbrev pub new_status : ColodDomainStatus
new_status = record {
  pid = pos 0;
  name = "";
  status = DomainStatus.shut_off;
  colo_enable = false;
  colo_status = ColoDomainStatus.none;
  config_file_path = "";
}

unfoldable pub lookup : String → Domains → Option ColodDomainStatus
lookup k [] = none
lookup k ((j, d) ∷ ds) = if j == k then some d else lookup k ds

-- domains[k] = d
unfoldable pub insert : String → ColodDomainStatus → Domains → Domains
insert k d [] = (k, d) ∷ []
insert k d ((j, e) ∷ ds) = if j == k then (k, d) ∷ ds else (j, e) ∷ insert k d ds

-- domains.erase(k)
unfoldable pub erase : String → Domains → Domains
erase k [] = []
erase k ((j, e) ∷ ds) = let rest = erase k ds in if j == k then rest else (j, e) ∷ rest

abbrev pub or_new : Option ColodDomainStatus → ColodDomainStatus
or_new none = new_status
or_new (some d) = d

-- The value of domains[k], which is there after the call.
abbrev pub get : String → Domains → ColodDomainStatus
get k ds = or_new (lookup k ds)

pub lookup-insert :
    (k j : String) (d : ColodDomainStatus) (ds : Domains)
    → lookup j (insert k d ds) ≡ (if k == j then some d else lookup j ds)
unfolding lookup insert
lookup-insert k j d [] = refl
lookup-insert k j d ((i, e) ∷ ds) =
    ground (arith, eq_iff k j, eq_iff i k, eq_iff i j, lookup-insert k j d ds)

pub lookup-erase :
    (k j : String) (ds : Domains) → lookup j (erase k ds) ≡ (if k == j then none else lookup j ds)
unfolding lookup erase
lookup-erase k j [] = ground arith
lookup-erase k j ((i, e) ∷ ds) =
    ground (arith, eq_iff k j, eq_iff i k, eq_iff i j, lookup-erase k j ds)

pub get-insert : (k : String) (d : ColodDomainStatus) (ds : Domains) → get k (insert k d ds) ≡ d
get-insert k d ds = rw (lookup-insert, eq_refl k) refl
