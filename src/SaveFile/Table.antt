-- ===== src/SaveFile/Table.antt =====
-- The list `domains` of the save file as a table by name, and what the loops of the code do to it.
use mathlib.Core.List.{append_assoc, append-nil}
use colo_manage_tools.Prelude.{
  ℕ, suc, ◌+◌, String, Bool, true, false, ◌||◌, Option, none, some, List, [], ◌∷◌, ◌++◌, ◌≡◌, refl,
  ◌∙◌, ap, arith, ◌==◌, length, set, Option-cases, eq_sym, inl, inr, if◌then◌else◌,
}
use colo_manage_tools.Platform.{Yaml}
use colo_manage_tools.Platform.Laws.{IsYaml, IsOpen}
use colo_manage_tools.SaveFile.Document.{
  string_at, bool_at, redefine_loop, undefine_loop, mark_loop, flag_loop,
}

set-append {ℓ} :
    {A : Type ℓ} (xs ys : List A) (x v : A) → set (xs ++ x ∷ ys) (length xs) v ≡ xs ++ v ∷ ys
set-append [] ys x v = refl
set-append (y ∷ xs) ys x v = ap (λ zs. y ∷ zs) (set-append xs ys x v)

pub length-append {ℓ} : {A : Type ℓ} (xs ys : List A) → length (xs ++ ys) ≡ length xs + length ys
length-append [] ys = omega arith
length-append (x ∷ xs) ys = omega (arith, length-append xs ys)

module _ ⦃Y : Yaml⦄ where
  abbrev has_name : String → Option String → Bool
  has_name k none = false
  has_name k (some n) = n == k

  -- The entry's `name` is the text `k`.
  unfoldable pub named : String → Y.Node → Bool
  named k e = has_name k (string_at e "name")

  -- The first entry of the name.
  abbrev pub find_entry : String → List Y.Node → Option Y.Node
  find_entry k [] = none
  find_entry k (e ∷ es) = if named k e then some e else find_entry k es

  -- The first entry of the name, changed.
  abbrev pub change_first : String → (Y.Node → Y.Node) → List Y.Node → List Y.Node
  change_first k change [] = []
  change_first k change (e ∷ es) = if named k e then change e ∷ es else e ∷ change_first k change es

  -- Each entry of the name replaced, each entry of the name dropped, and whether there is one.
  abbrev pub replace_all : String → Y.Node → List Y.Node → List Y.Node
  replace_all k dom [] = []
  replace_all k dom (e ∷ es) = (if named k e then dom else e) ∷ replace_all k dom es

  abbrev pub drop_all : String → List Y.Node → List Y.Node
  drop_all k [] = []
  drop_all k (e ∷ es) = if named k e then drop_all k es else e ∷ drop_all k es

  abbrev pub is_listed : String → List Y.Node → Bool
  is_listed k [] = false
  is_listed k (e ∷ es) = named k e || is_listed k es

  set_item-at :
      (L : IsYaml Y) (before rest : List Y.Node) (i : ℕ) (doms x v : Y.Node)
      → i ≡ length before
      → Y.is_sequence doms ≡ true
      → Y.items doms ≡ before ++ x ∷ rest
      → Y.items (Y.set_item doms i v) ≡ before ++ v ∷ rest
  set_item-at L before rest i doms x v l s e =
      L.items-set_item doms v i s ∙ rw (e, l) (set-append before rest x v)

  module _ (L : IsYaml Y) (name : String) (change : Y.Node → Y.Node) where
    pub mark_loop-items :
        (before rest : List Y.Node) (i : ℕ) (doms doms' : Y.Node)
        → i ≡ length before
        → Y.is_sequence doms ≡ true
        → Y.items doms ≡ before ++ rest
        → mark_loop name change rest i doms ≡ some doms'
        → Y.items doms' ≡ before ++ change_first name change rest
    unfolding mark_loop named
    mark_loop-items before [] i doms doms' l s e h = ground arith
    mark_loop-items before (x ∷ rest) i doms doms' l s e h = ground (
      arith,
      set_item-at L before rest i doms x (change x) l s e,
      append_assoc before (x ∷ []) rest,
      length-append before (x ∷ []),
      append_assoc before (x ∷ []) (change_first name change rest),
      mark_loop-items (before ++ x ∷ []) rest (suc i) doms doms',
    )

    pub flag_loop-items :
        (before rest : List Y.Node) (i : ℕ) (doms doms' : Y.Node)
        → i ≡ length before
        → Y.is_sequence doms ≡ true
        → Y.items doms ≡ before ++ rest
        → flag_loop name change rest i doms ≡ some (some doms')
        → Y.items doms' ≡ before ++ change_first name change rest
    unfolding flag_loop named
    flag_loop-items before [] i doms doms' l s e h = ground arith
    flag_loop-items before (x ∷ rest) i doms doms' l s e h = ground (
      arith,
      set_item-at L before rest i doms x (change x) l s e,
      append_assoc before (x ∷ []) rest,
      length-append before (x ∷ []),
      append_assoc before (x ∷ []) (change_first name change rest),
      flag_loop-items (before ++ x ∷ []) rest (suc i) doms doms',
    )

  module _ (L : IsYaml Y) (name : String) (dom : Y.Node) where
    pub redefine_loop-items :
        (before rest : List Y.Node) (i : ℕ) (doms doms' : Y.Node) (old new : Bool)
        → i ≡ length before
        → Y.is_sequence doms ≡ true
        → Y.items doms ≡ before ++ rest
        → redefine_loop name dom rest i doms old ≡ some (doms', new)
        → (Y.items doms' ≡ before ++ replace_all name dom rest)
          × (new ≡ (old || is_listed name rest))
          × (Y.is_sequence doms' ≡ true)
    unfolding redefine_loop named
    redefine_loop-items before [] i doms doms' old new l s e h = ground arith
    redefine_loop-items before (x ∷ rest) i doms doms' old new l s e h =
        elim (Option-cases (string_at x "name")) [
          | inr bad ↦ ground (arith, bad)
          | inl (n, good) ↦ ground (
            arith,
            good,
            eq_sym name n,
            set_item-at L before rest i doms x dom l s e,
            L.sequence-set_item doms dom i s,
            append_assoc before (x ∷ []) rest,
            append_assoc before (dom ∷ []) rest,
            length-append before (x ∷ []),
            length-append before (dom ∷ []),
            append_assoc before (x ∷ []) (replace_all name dom rest),
            append_assoc before (dom ∷ []) (replace_all name dom rest),
            redefine_loop-items (before ++ x ∷ []) rest (suc i) doms doms' (old || false) new,
            redefine_loop-items (before ++ dom ∷ []) rest (suc i) (Y.set_item doms i dom) doms'
                (old || true) new,
          )
        ]

  pub undefine_loop-items :
      (L : IsYaml Y) (name : String) (rest : List Y.Node) (kept kept' : Y.Node)
      (rm rm' colo colo' : Bool)
      → IsOpen Y kept
      → undefine_loop name rest kept rm colo ≡ some (kept', rm', colo')
      → (Y.items kept' ≡ Y.items kept ++ drop_all name rest) × (rm' ≡ (rm || is_listed name rest))
  unfolding undefine_loop named
  undefine_loop-items L name [] kept kept' rm rm' colo colo' o h =
      ground (arith, append-nil (Y.items kept))
  undefine_loop-items L name (x ∷ rest) kept kept' rm rm' colo colo' o h =
      elim (Option-cases (string_at x "name")) [
        | inr bad ↦ ground (arith, bad)
        | inl (n, good) ↦ elim (Option-cases (bool_at x "colo_enable")) [
          | inr unread ↦ ground (
            arith,
            good,
            unread,
            eq_sym name n,
            L.items-push_back kept x o,
            L.sequence-push_back kept x o,
            append_assoc (Y.items kept) (x ∷ []) (drop_all name rest),
            undefine_loop-items L name rest (Y.push_back kept x) kept' rm rm' colo colo',
          )
          | inl (b, flag) ↦ ground (
            arith,
            good,
            flag,
            eq_sym name n,
            L.items-push_back kept x o,
            L.sequence-push_back kept x o,
            append_assoc (Y.items kept) (x ∷ []) (drop_all name rest),
            undefine_loop-items L name rest (Y.push_back kept x) kept' rm rm' colo colo',
            undefine_loop-items L name rest kept kept' true rm' (colo || b) colo',
          )
        ]
      ]
