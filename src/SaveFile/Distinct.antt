-- ===== src/SaveFile/Distinct.antt =====
-- Lists of entries in which no two have the same name, under the operations on lists of `Table`.
pub mod Tables
pub mod Kept
use colo_manage_tools.Prelude.{
  String, Bool, true, false, not, ◌&&◌, ◌||◌, Option, none, some, List, [], ◌∷◌, ◌++◌, ◌≡◌, refl,
  arith, ◌==◌, eq_iff, Bool-cases, Option-cases, inl, inr, if◌then◌else◌,
}
use colo_manage_tools.Platform.{Yaml}
use colo_manage_tools.SaveFile.Document.{string_at}
use colo_manage_tools.SaveFile.Table.{named, change_first, replace_all, drop_all, is_listed}
use colo_manage_tools.SaveFile.Entries.{named-named}
use colo_manage_tools.SaveFile.Reload.{listed_name, are_distinct, listed-named}

module _ ⦃Y : Yaml⦄ where
  listed_name-same :
      (o : Option String) (es fs : List Y.Node)
      → ((j : String) → is_listed j fs ≡ is_listed j es)
      → listed_name o fs ≡ listed_name o es
  listed_name-same none es fs h = refl
  listed_name-same (some n) es fs h = h n

  module _ (k : String) (change : Y.Node → Y.Node)
      (keeps : (e : Y.Node) → named k e ≡ true → named k (change e) ≡ true) where
    is_listed-change_first :
        (j : String) (es : List Y.Node) → is_listed j (change_first k change es) ≡ is_listed j es
    is_listed-change_first j [] = refl
    is_listed-change_first j (e ∷ es) =
        ground (
          arith,
          is_listed-change_first j es,
          keeps e,
          named-named k j e,
          named-named k j (change e),
        )

    pub change_first-distinct :
        (es : List Y.Node) → are_distinct (change_first k change es) ≡ are_distinct es
    change_first-distinct [] = refl
    change_first-distinct (e ∷ es) = ground (
      arith,
      change_first-distinct es,
      keeps e,
      listed-named k e es,
      listed-named k (change e) es,
      listed_name-same (string_at e "name") es (change_first k change es)
          (λ j. is_listed-change_first j es),
    )

  module _ (k : String) (dom : Y.Node) (n : named k dom ≡ true) where
    pub is_listed-replace_all :
        (j : String) (es : List Y.Node) → is_listed j (replace_all k dom es) ≡ is_listed j es
    is_listed-replace_all j [] = refl
    is_listed-replace_all j (e ∷ es) =
        ground (arith, n, is_listed-replace_all j es, named-named k j e, named-named k j dom)

    pub replace_all-distinct :
        (es : List Y.Node) → are_distinct (replace_all k dom es) ≡ are_distinct es
    replace_all-distinct [] = refl
    replace_all-distinct (e ∷ es) =
        let fs = replace_all k dom es in
        ground (
          arith,
          n,
          replace_all-distinct es,
          listed-named k e es,
          listed-named k dom fs,
          is_listed-replace_all k es,
          listed_name-same (string_at e "name") es fs (λ j. is_listed-replace_all j es),
        )

  is_listed-append :
      (j : String) (x : Y.Node) (es : List Y.Node)
      → is_listed j (es ++ x ∷ []) ≡ (is_listed j es || named j x)
  is_listed-append j x [] = ground arith
  is_listed-append j x (e ∷ es) = ground (arith, is_listed-append j x es)

  listed_name-append :
      (k : String) (x e : Y.Node) (es : List Y.Node)
      → named k x ≡ true
      → named k e ≡ false
      → listed_name (string_at e "name") (es ++ x ∷ []) ≡ listed_name (string_at e "name") es
  unfolding named
  listed_name-append k x e es nx ne = elim (Option-cases (string_at e "name")) [
    | inr bad ↦ ground (arith, bad)
    | inl (n, good) ↦
        ground
          (arith, good, ne, is_listed-append n x es, named-named k n x nx, eq_iff n k, eq_iff k n)
  ]

  pub append-distinct :
      (k : String) (x : Y.Node) (es : List Y.Node)
      → named k x ≡ true
      → is_listed k es ≡ false
      → are_distinct es ≡ true
      → are_distinct (es ++ x ∷ []) ≡ true
  append-distinct k x [] n h d = ground (arith, listed-named k x [] n)
  append-distinct k x (e ∷ es) n h d =
      ground (arith, d, h, append-distinct k x es n, listed_name-append k x e es n)

  listed_name-drop_all :
      (k : String) (o : Option String) (es : List Y.Node)
      → listed_name o es ≡ false
      → listed_name o (drop_all k es) ≡ false
  listed_name-drop_all k none es h = refl
  listed_name-drop_all k (some n) [] h = refl
  listed_name-drop_all k (some n) (e ∷ es) h = ground (arith, h, listed_name-drop_all k (some n) es)

  pub drop_all-distinct :
      (k : String) (es : List Y.Node) → are_distinct es ≡ true → are_distinct (drop_all k es) ≡ true
  drop_all-distinct k [] h = refl
  drop_all-distinct k (e ∷ es) h =
      ground (arith, h, drop_all-distinct k es, listed_name-drop_all k (string_at e "name") es)
