-- ===== src/Domain/Total.antt =====
-- `get_domain` and `vm_undefine` of src/utils/domain.cpp come back in a world whose save file can be
-- read, and leave it so.
use colo_manage_tools.Prelude.{
  pos, String, ◌<>◌, Bool, true, false, ◌||◌, Option, none, some, List, [], ◌∷◌, All, ◌≡◌, refl,
  arith, ◌==◌, Bool-cases, Option-cases, ◌⊎◌, ◌∙◌, inl, inr,
}
use colo_manage_tools.Platform.{Yaml, Os, at}
use colo_manage_tools.Platform.Laws.{IsYaml, IsOpen}
use colo_manage_tools.World.{World, returned, ◌>>=◌, load_file, write_file}
use colo_manage_tools.World.Returns.{Returns}
use colo_manage_tools.SaveFile.Document.{string_at, bool_at, undefine_loop}
use colo_manage_tools.SaveFile.Table.{named, drop_all, undefine_loop-items}
use colo_manage_tools.SaveFile.Marked.{IsList}
use colo_manage_tools.SaveFile.Intact.{IsEntry, name_read, flag_read, set_domains-IsSaveNode}
use colo_manage_tools.SaveFile.Total.{IsIntact, with_save_file, with_save_file-IsIntact}
use colo_manage_tools.Domain.{Domain}
use colo_manage_tools.Domain.Parse.{Parsed, accepted, rejected, threw, vm_config_parse}
use colo_manage_tools.Domain.Files.{get_loop, get_domain, vm_undefine}

Parsed-cases :
    {A : Type 0} (r : Parsed A)
    → ((a : A) × (r ≡ accepted a)) ⊎ ((err : String) × (r ≡ rejected err)) ⊎ (r ≡ threw)
Parsed-cases (accepted a) = inl (a, refl)
Parsed-cases (rejected err) = inr (inl (err, refl))
Parsed-cases threw = inr (inr refl)

module _ ⦃Y : Yaml⦄ where
  module _ ⦃O : Os⦄ (files : String → Option Y.Text) where
    undefine_loop-total :
        (name : String) (es : List Y.Node) (kept : Y.Node) (rm colo : Bool)
        → All (IsEntry files) es
        → (loop : Y.Node × Bool × Bool) × (undefine_loop name es kept rm colo ≡ some loop)
    unfolding undefine_loop
    undefine_loop-total name [] kept rm colo h = ((kept, rm, colo), refl)
    undefine_loop-total name (e ∷ es) kept rm colo h =
        let (n, read) = name_read files e h.0 in
        let (b, flag) = flag_read files e h.0 in
        elim (Bool-cases (name == n)) [
          | inl same ↦
              let (loop, rest) = undefine_loop-total name es kept true (colo || b) h.1 in
              (loop, ground (arith, read, same, flag, rest))
          | inr other ↦
              let (loop, rest) = undefine_loop-total name es (Y.push_back kept e) rm colo h.1 in
              (loop, ground (arith, read, other, rest))
        ]

    drop_all-entries :
        (name : String) (es : List Y.Node)
        → All (IsEntry files) es
        → All (IsEntry files) (drop_all name es)
    drop_all-entries name [] h = tt
    drop_all-entries name (e ∷ es) h = elim (Bool-cases (named name e)) [
      | inl same ↦ rw same (drop_all-entries name es h.1)
      | inr other ↦ rw other (h.0, drop_all-entries name es h.1)
    ]

  pub undefine_loop-IsList :
      IsYaml Y
      → (name : String) (es : List Y.Node) (kept kept' : Y.Node) (rm rm' colo colo' : Bool)
      → IsOpen Y kept
      → IsList kept
      → undefine_loop name es kept rm colo ≡ some (kept', rm', colo')
      → IsList kept'
  unfolding undefine_loop
  undefine_loop-IsList L name [] kept kept' rm rm' colo colo' o list ran =
      let same : kept ≡ kept' = ground (arith, ran) in rw (← same) list
  undefine_loop-IsList L name (e ∷ es) kept kept' rm rm' colo colo' o list ran =
      let s' = L.sequence-push_back kept e o in
      elim (Option-cases (string_at e "name")) [
        | inr bad ↦ absurd (ground (arith, ran, bad))
        | inl (n, read) ↦ elim (Bool-cases (name == n)) [
          | inr other ↦
              undefine_loop-IsList L name es (Y.push_back kept e) kept' rm rm' colo colo' (inl s')
                (inl s') (ground (arith, ran, read, other))
          | inl same ↦ elim (Option-cases (bool_at e "colo_enable")) [
            | inr bad ↦ absurd (ground (arith, ran, read, same, bad))
            | inl (b, flag) ↦
                undefine_loop-IsList L name es kept kept' true rm' (colo || b) colo' o list
                  (ground (arith, ran, read, same, flag))
          ]
        ]
      ]

module _ ⦃Y : Yaml⦄ ⦃O : Os⦄ where
  get_loop-total :
      (name : String) (es : List Y.Node) (d : Option Domain) (w : World)
      → All (IsEntry w.files) es
      → (found : Option Domain) × (get_loop name es d w ≡ returned found w)
  unfolding get_loop ◌>>=◌ load_file string_at
  get_loop-total name [] d w h = (d, refl)
  get_loop-total name (e ∷ es) d w h =
      let (n, read) = name_read w.files e h.0 in
      let (p, doc, path, other, loads, parses) = h.0.path in
      elim (Bool-cases (name == n)) [
        | inr other_name ↦
            let (found, rest) = get_loop-total name es d w h.1 in
            (found, ground (arith, read, other_name, rest))
        | inl same ↦ elim (Parsed-cases (vm_config_parse doc)) [
          | inl (d', ok) ↦
              let (found, rest) = get_loop-total name es (some d') w h.1 in
              (found, ground (arith, read, same, path, loads, ok, rest, h.0.map_node))
          | inr (inl (err, bad)) ↦
              (none, ground (arith, read, same, path, loads, bad, h.0.map_node))
          | inr (inr bad) ↦ absurd (parses bad)
        ]
      ]

  pub Returns-get_domain : (name : String) → Returns IsIntact (get_domain name)
  unfolding get_domain load_file at ◌>>=◌
  Returns-get_domain name = record {
    at = λ w h.
        let (found, ran) =
          get_loop-total name (Y.items (Y.field h.node "domains")) none w h.shape.entries in
        (found, w, ground (arith, h.loads, h.shape.map_node, ran), h);
  }

  pub Returns-vm_undefine : IsYaml Y → (name : String) → Returns IsIntact (vm_undefine name)
  unfolding vm_undefine load_file write_file at ◌>>=◌
  Returns-vm_undefine L name = record {
    at = λ w h.
        let es = Y.items (Y.field h.node "domains") in
        let ((kept, rm, colo), ran) =
          undefine_loop-total w.files name es Y.empty false false h.shape.entries in
        let o : IsOpen Y Y.empty = inr (inl L.null-empty) in
        let none_kept = L.items-null Y.empty L.null-empty in
        let sf' = Y.set_field h.node "domains" kept in
        elim (Bool-cases rm) [
          | inr unlisted ↦ (
            (pos 0, "cannot find domain: " <> name <> "."),
            w,
            ground (arith, h.loads, h.shape.map_node, ran, unlisted),
            h,
          )
          | inl removed ↦
              let items : Y.items kept ≡ drop_all name es =
                (undefine_loop-items L name es Y.empty kept false rm false colo o ran).0
                ∙ rw none_kept refl in
              (
                (pos 0, ""),
                with_save_file w sf',
                ground (arith, h.loads, h.shape.map_node, ran, removed),
                with_save_file-IsIntact L w sf' h (
                    set_domains-IsSaveNode w.files L h.node kept
                      (undefine_loop-IsList L name es Y.empty kept false rm false colo o
                        (inr none_kept) ran)
                      (rw items (drop_all-entries w.files name es h.shape.entries))),
              )
        ];
  }
