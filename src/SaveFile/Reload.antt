-- ===== src/SaveFile/Reload.antt =====
-- The records that the entries of the save file stand for (src/utils/config_parser.cpp).
pub mod Memory
use mathlib.Core.Option
use colo_manage_tools.Prelude.{
  ℤ, pos, String, Bool, true, false, not, ◌&&◌, ◌||◌, Option, none, some, List, [], ◌∷◌, ◌≡◌, refl,
  arith, sym, ◌∙◌, ap, ◌==◌, eq_iff, Option-cases, Bool-cases, inl, inr, if◌then◌else◌,
}
use colo_manage_tools.Prelude.Throws.{◌>>=◌}
use colo_manage_tools.Config.{domain_status, colo_domain_status}
use colo_manage_tools.Platform.{Yaml, Os, ColodDomainStatus}
use colo_manage_tools.Domains
use colo_manage_tools.Domains.{Domains, lookup-insert}
use colo_manage_tools.SaveFile.Document.{string_at, int_at, bool_at, domain_node, init_loop}
use colo_manage_tools.SaveFile.Table.{named, find_entry, is_listed}
use colo_manage_tools.SaveFile.Entries.{or_else, find_entry-unlisted, named-named}
use colo_manage_tools.SaveFile.Restored.{restored}

module _ ⦃Y : Yaml⦄ where
  -- The record that an entry stands for.
  abbrev pub reloaded : Y.Node → Option ColodDomainStatus
  reloaded e = do
    name ← string_at e "name"
    pid ← int_at e "pid"
    flag ← bool_at e "colo_enable"
    colo_name ← string_at e "colo_status"
    some (record {
      pid = pid;
      name = name;
      status = domain_status name;
      colo_enable = flag;
      colo_status = colo_domain_status colo_name;
      config_file_path = "";
    })

  -- The record of an entry that was found, and the one from before where none was.
  abbrev pub reloaded_or : Option ColodDomainStatus → Option Y.Node → Option ColodDomainStatus
  reloaded_or old none = old
  reloaded_or old (some e) = reloaded e

  -- The last entry of the name.
  abbrev pub find_last : String → List Y.Node → Option Y.Node
  find_last k [] = none
  find_last k (e ∷ es) = or_else (find_last k es) (if named k e then some e else none)

  abbrev pub listed_name : Option String → List Y.Node → Bool
  listed_name none es = false
  listed_name (some n) es = is_listed n es

  -- No two entries have the same name.
  abbrev pub are_distinct : List Y.Node → Bool
  are_distinct [] = true
  are_distinct (e ∷ es) = not (listed_name (string_at e "name") es) && are_distinct es

  find_last-unlisted :
      (k : String) (es : List Y.Node) → is_listed k es ≡ false → find_last k es ≡ none
  find_last-unlisted k [] h = refl
  find_last-unlisted k (e ∷ es) h = ground (arith, find_last-unlisted k es)

  pub listed-named :
      (k : String) (e : Y.Node) (es : List Y.Node)
      → named k e ≡ true
      → listed_name (string_at e "name") es ≡ is_listed k es
  unfolding named
  listed-named k e es h = elim (Option-cases (string_at e "name")) [
    | inr bad ↦ absurd (ground (arith, h, bad))
    | inl (n, good) ↦ ground (arith, h, good, eq_iff n k)
  ]

  pub find_last-find_entry :
      (k : String) (es : List Y.Node) → are_distinct es ≡ true → find_last k es ≡ find_entry k es
  find_last-find_entry k [] h = refl
  find_last-find_entry k (e ∷ es) h =
      ground (arith, h, find_last-find_entry k es, find_last-unlisted k es, listed-named k e es)

  pub init_loop-reloaded :
      (k : String) (es : List Y.Node) (ds_map ds_map' : Domains)
      → init_loop es ds_map ≡ some ds_map'
      → Domains.lookup k ds_map' ≡ reloaded_or (Domains.lookup k ds_map) (find_last k es)
  unfolding init_loop named
  init_loop-reloaded k [] ds_map ds_map' ran = ground (arith, ran)
  init_loop-reloaded k (e ∷ es) ds_map ds_map' ran = elim (Option-cases (string_at e "name")) [
    | inr bad ↦ absurd (ground (arith, ran, bad))
    | inl (name, n) ↦ elim (Option-cases (int_at e "pid")) [
      | inr bad ↦ absurd (ground (arith, ran, n, bad))
      | inl (pid, p) ↦ elim (Option-cases (bool_at e "colo_enable")) [
        | inr bad ↦ absurd (ground (arith, ran, n, p, bad))
        | inl (flag, f) ↦ elim (Option-cases (string_at e "colo_status")) [
          | inr bad ↦ absurd (ground (arith, ran, n, p, f, bad))
          | inl (colo, c) ↦
              let ds : ColodDomainStatus = record {
                pid = pid;
                name = name;
                status = domain_status name;
                colo_enable = flag;
                colo_status = colo_domain_status colo;
                config_file_path = "";
              } in
              let rest =
                init_loop-reloaded k es (Domains.insert name ds ds_map) ds_map'
                  (ground (arith, ran, n, p, f, c)) in
              ground (arith, n, p, f, c, rest, lookup-insert name k ds ds_map)
        ]
      ]
    ]
  ]
