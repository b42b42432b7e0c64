-- ===== src/Platform/Laws.antt =====
-- What the code relies on in yaml-cpp, as documented there.
use colo_manage_tools.Prelude.{
  ℕ, ℤ, String, Bool, true, false, some, [], ◌∷◌, ◌++◌, ◌≡◌, ◌⊎◌, ◌==◌, set, if◌then◌else◌,
}
use colo_manage_tools.Platform.{Yaml}

-- Where `push_back` makes or extends a sequence.
abbrev pub IsOpen : (Y : Yaml) → Y.Node → Type 0
IsOpen Y n = (Y.is_sequence n ≡ true) ⊎ (Y.is_null n ≡ true) ⊎ (Y.is_defined n ≡ false)

pub record IsYaml (Y : Yaml) : Type 0 where
  -- A document that was written is read back.
  pub load-emit : (n : Y.Node) → Y.load (Y.emit n) ≡ some n
  -- An empty file is an empty document, in which no key is there.
  pub load-blank : Y.load Y.blank ≡ some Y.empty
  pub undefined-empty : (k : String) → Y.is_defined (Y.field Y.empty k) ≡ false
  -- Maps, and `Node()`, which becomes a map with the first assignment to a key.
  pub field-set_field :
      (n v : Y.Node) (k j : String)
      → Y.field (Y.set_field n k v) j ≡ (if k == j then v else Y.field n j)
  pub scalar-set_field : (n v : Y.Node) (k : String) → Y.is_scalar (Y.set_field n k v) ≡ false
  pub scalar-empty : Y.is_scalar Y.empty ≡ false
  -- Sequences, and `Node()` and an undefined node, which become one with the first push_back.
  pub null-empty : Y.is_null Y.empty ≡ true
  pub items-undefined : (n : Y.Node) → Y.is_defined n ≡ false → Y.items n ≡ []
  pub items-null : (n : Y.Node) → Y.is_null n ≡ true → Y.items n ≡ []
  pub items-push_back :
      (n v : Y.Node) → IsOpen Y n → Y.items (Y.push_back n v) ≡ Y.items n ++ v ∷ []
  pub sequence-push_back : (n v : Y.Node) → IsOpen Y n → Y.is_sequence (Y.push_back n v) ≡ true
  pub items-set_item :
      (n v : Y.Node) (i : ℕ)
      → Y.is_sequence n ≡ true
      → Y.items (Y.set_item n i v) ≡ set (Y.items n) i v
  pub sequence-set_item :
      (n v : Y.Node) (i : ℕ) → Y.is_sequence n ≡ true → Y.is_sequence (Y.set_item n i v) ≡ true
  -- A value that was assigned is read back.
  pub string-of_string : (s : String) → Y.as_string (Y.of_string s) ≡ some s
  pub int-of_int : (i : ℤ) → Y.as_int (Y.of_int i) ≡ some i
  pub bool-of_bool : (b : Bool) → Y.as_bool (Y.of_bool b) ≡ some b
