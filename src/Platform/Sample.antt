-- ===== src/Platform/Sample.antt =====
-- A platform that meets the assumptions: documents as trees, and an operating system whose answers
-- are fixed. The witnesses run on it.
pub mod Machine
use colo_manage_tools.Prelude.{
  ℕ, suc, zero, ℤ, pos, negsuc, String, Bool, true, false, Option, none, some, List, [], ◌∷◌, ◌++◌,
  ◌≡◌, refl, ◌⊎◌, inl, inr, ◌==◌, set, ltb, arith, if◌then◌else◌,
}
use colo_manage_tools.Platform.{Yaml}
use colo_manage_tools.Platform.Laws.{IsOpen, IsYaml}

pub data Scalar : Type 0 where
  text : String → Scalar
  int : ℤ → Scalar
  flag : Bool → Scalar

mutual
  pub data Tree : Type 0 where
    undefined null : Tree
    scalar : Scalar → Tree
    sequence : Trees → Tree
    map : Fields → Tree

  pub data Trees : Type 0 where
    nil : Trees
    cons : Tree → Trees → Trees

  pub data Fields : Type 0 where
    end : Fields
    entry : String → Tree → Fields → Fields

abbrev lookup : String → Fields → Tree
lookup k end = undefined
lookup k (entry j v fs) = if j == k then v else lookup k fs

abbrev pub field : Tree → String → Tree
field (map fs) k = lookup k fs
field _ k = undefined

abbrev pub set_field : Tree → String → Tree → Tree
set_field (map fs) k v = map (entry k v fs)
set_field _ k v = map (entry k v end)

abbrev to_list : Trees → List Tree
to_list nil = []
to_list (cons t ts) = t ∷ to_list ts

abbrev of_list : List Tree → Trees
of_list [] = nil
of_list (t ∷ ts) = cons t (of_list ts)

abbrev pub items : Tree → List Tree
items (sequence ts) = to_list ts
items _ = []

abbrev to_ushort : ℤ → Option ℕ
to_ushort (pos n) = if ltb n 65536 then some n else none
to_ushort (negsuc n) = none

abbrev as_string : Tree → Option String
as_string (scalar (text s)) = some s
as_string _ = none

abbrev as_int : Tree → Option ℤ
as_int (scalar (int i)) = some i
as_int _ = none

abbrev as_ushort : Tree → Option ℕ
as_ushort (scalar (int i)) = to_ushort i
as_ushort _ = none

abbrev as_bool : Tree → Option Bool
as_bool (scalar (flag b)) = some b
as_bool _ = none

abbrev is_defined : Tree → Bool
is_defined undefined = false
is_defined _ = true

abbrev is_null : Tree → Bool
is_null null = true
is_null _ = false

abbrev is_scalar : Tree → Bool
is_scalar (scalar s) = true
is_scalar _ = false

abbrev is_sequence : Tree → Bool
is_sequence (sequence ts) = true
is_sequence _ = false

instance abbrev pub sample_yaml : Yaml
sample_yaml = record {
  Node = Tree;
  Text = Tree;
  load = λ t. some t;
  emit = λ t. t;
  blank = null;
  empty = null;
  is_defined = is_defined;
  is_null = is_null;
  is_scalar = is_scalar;
  is_sequence = is_sequence;
  field = field;
  set_field = set_field;
  items = items;
  set_item = λ n i v. sequence (of_list (set (items n) i v));
  push_back = λ n v. sequence (of_list (items n ++ v ∷ []));
  as_string = as_string;
  as_int = as_int;
  as_ushort = as_ushort;
  as_bool = as_bool;
  of_string = λ s. scalar (text s);
  of_int = λ i. scalar (int i);
  of_bool = λ b. scalar (flag b);
}

to_list-of_list : (ts : List Tree) → to_list (of_list ts) ≡ ts
to_list-of_list [] = refl
to_list-of_list (t ∷ ts) = λ i. t ∷ to_list-of_list ts i

field-set_field :
    (n v : Tree) (k j : String) → field (set_field n k v) j ≡ (if k == j then v else field n j)
field-set_field undefined v k j = refl
field-set_field _ v k j = refl

scalar-set_field : (n v : Tree) (k : String) → is_scalar (set_field n k v) ≡ false
scalar-set_field undefined v k = refl
scalar-set_field _ v k = refl

items-undefined : (n : Tree) → is_defined n ≡ false → items n ≡ []
items-undefined n h = ground arith

items-null : (n : Tree) → is_null n ≡ true → items n ≡ []
items-null n h = ground arith

pub sample_yaml-IsYaml : IsYaml sample_yaml
sample_yaml-IsYaml = record {
  load-emit = λ n. refl;
  load-blank = refl;
  undefined-empty = λ k. refl;
  field-set_field = field-set_field;
  scalar-set_field = scalar-set_field;
  scalar-empty = refl;
  null-empty = refl;
  items-undefined = items-undefined;
  items-null = items-null;
  items-push_back = λ n v h. to_list-of_list _;
  sequence-push_back = λ n v h. refl;
  items-set_item = λ n v i h. to_list-of_list _;
  sequence-set_item = λ n v i h. refl;
  string-of_string = λ s. refl;
  int-of_int = λ i. refl;
  bool-of_bool = λ b. refl;
}
