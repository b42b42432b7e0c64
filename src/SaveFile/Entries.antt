-- ===== src/SaveFile/Entries.antt =====
-- Looking an entry up after the operations on lists of `Table`.
use mathlib.Core.Option
use colo_manage_tools.Prelude.{
  String, true, false, Option, none, some, List, [], ◌∷◌, ◌++◌, ◌≡◌, refl, arith, ◌==◌, eq_iff,
  Bool-cases, Option-cases, inl, inr, if◌then◌else◌,
}
use colo_manage_tools.Platform.{Yaml}
use colo_manage_tools.SaveFile.Document.{string_at}
use colo_manage_tools.SaveFile.Table.{
  named, find_entry, change_first, replace_all, drop_all, is_listed,
}

abbrev pub or_else {ℓ} : {A : Type ℓ} → Option A → Option A → Option A
or_else none b = b
or_else (some a) b = some a

module _ ⦃Y : Yaml⦄ where
  -- An entry has one name.
  pub named-named : (k j : String) (e : Y.Node) → named k e ≡ true → named j e ≡ (k == j)
  unfolding named
  named-named k j e h = elim (Option-cases (string_at e "name")) [
    | inr bad ↦ ground (arith, bad)
    | inl (n, good) ↦ ground (arith, good, eq_iff n k, eq_iff n j, eq_iff k j)
  ]

  pub find_entry-drop_all :
      (k j : String) (es : List Y.Node)
      → find_entry j (drop_all k es) ≡ (if k == j then none else find_entry j es)
  find_entry-drop_all k j [] = ground arith
  find_entry-drop_all k j (e ∷ es) = elim (Bool-cases (named k e)) [
    | inl same ↦ rw same (ground (arith, find_entry-drop_all k j es, named-named k j e))
    | inr other ↦ rw other (
        ground (
          arith,
          other,
          find_entry-drop_all k j es,
          named-named k j e,
          named-named j k e,
          eq_iff k j,
        ))
  ]

  pub find_entry-replace_all :
      (k j : String) (dom : Y.Node) (es : List Y.Node)
      → named k dom ≡ true
      → find_entry j (replace_all k dom es)
        ≡ (if k == j then (if is_listed k es then some dom else none) else find_entry j es)
  find_entry-replace_all k j dom [] h = ground arith
  find_entry-replace_all k j dom (e ∷ es) h = ground (
    arith,
    find_entry-replace_all k j dom es h,
    named-named k j e,
    named-named k j dom,
    eq_iff k j,
  )

  pub find_entry-change_first :
      (k j : String) (change : Y.Node → Y.Node) (es : List Y.Node)
      → ((e : Y.Node) → named k e ≡ true → named k (change e) ≡ true)
      → find_entry j (change_first k change es)
        ≡ (if k == j then Option.map change (find_entry k es) else find_entry j es)
  find_entry-change_first k j change [] keeps = ground arith
  find_entry-change_first k j change (e ∷ es) keeps = ground (
    arith,
    find_entry-change_first k j change es keeps,
    named-named k j e,
    keeps e,
    named-named k j (change e),
    eq_iff k j,
  )

  pub find_entry-append :
      (j : String) (x : Y.Node) (es : List Y.Node)
      → find_entry j (es ++ x ∷ []) ≡ or_else (find_entry j es) (if named j x then some x else none)
  find_entry-append j x [] = refl
  find_entry-append j x (e ∷ es) = ground (arith, find_entry-append j x es)

  pub find_entry-unlisted :
      (k : String) (es : List Y.Node) → is_listed k es ≡ false → find_entry k es ≡ none
  find_entry-unlisted k [] h = refl
  find_entry-unlisted k (e ∷ es) h = ground (arith, find_entry-unlisted k es)
