-- ===== src/SaveFile/Intact.antt =====
-- A save file that the functions of src/utils/config_parser.cpp and src/utils/domain.cpp can read:
-- their loops come to an end without an exception, and leave it so.
use mathlib.Core.Option
use colo_manage_tools.Prelude.{
  ℕ, suc, ℤ, minus_one, String, Bool, true, false, Option, none, some, List, [], ◌∷◌, All, ◌≡◌, ◌≢◌,
  refl, arith, ◌==◌, Bool-cases, inl, inr, if◌then◌else◌,
}
use colo_manage_tools.Config.{ColoDomainStatus, save_file}
use colo_manage_tools.Platform.{Yaml, Os, at}
use colo_manage_tools.World.{is_same}
use colo_manage_tools.Platform.Laws.{IsYaml}
use colo_manage_tools.Domain.Parse.{threw, vm_config_parse}
use colo_manage_tools.SaveFile.Document.{
  string_at, int_at, bool_at, mark_loop, mark_running, mark_shut_off, flag_loop, mark_colo,
  unmark_colo, pid_loop,
}
use colo_manage_tools.SaveFile.Table.{named, change_first, mark_loop-items, flag_loop-items}
use colo_manage_tools.SaveFile.Marked.{IsList}

module _ ⦃Y : Yaml⦄ where
  module _ (L : IsYaml Y) (name : String) (change : Y.Node → Y.Node) where
    pub mark_loop-sequence :
        (es : List Y.Node) (i : ℕ) (doms doms' : Y.Node)
        → Y.is_sequence doms ≡ true
        → mark_loop name change es i doms ≡ some doms'
        → Y.is_sequence doms' ≡ true
    unfolding mark_loop
    mark_loop-sequence [] i doms doms' s h = ground arith
    mark_loop-sequence (e ∷ es) i doms doms' s h =
        ground (
          arith,
          L.sequence-set_item doms (change e) i s,
          mark_loop-sequence es (suc i) doms doms' s,
        )

    pub flag_loop-sequence :
        (es : List Y.Node) (i : ℕ) (doms doms' : Y.Node)
        → Y.is_sequence doms ≡ true
        → flag_loop name change es i doms ≡ some (some doms')
        → Y.is_sequence doms' ≡ true
    unfolding flag_loop
    flag_loop-sequence [] i doms doms' s h = ground arith
    flag_loop-sequence (e ∷ es) i doms doms' s h =
        ground (
          arith,
          L.sequence-set_item doms (change e) i s,
          flag_loop-sequence es (suc i) doms doms' s,
        )

  -- An entry of the list: a map with its keys in their types, and at its path, which is not that of
  -- the save file, a document that `vm_config_parse` accepts or rejects.
  pub record IsEntry ⦃O : Os⦄ (files : String → Option Y.Text) (e : Y.Node) : Type 0 where
    pub map_node : Y.is_scalar e ≡ false
    pub name : (s : String) × (Y.as_string (Y.field e "name") ≡ some s)
    pub pid : (i : ℤ) × (Y.as_int (Y.field e "pid") ≡ some i)
    pub status : (s : String) × (Y.as_string (Y.field e "status") ≡ some s)
    pub flag : (b : Bool) × (Y.as_bool (Y.field e "colo_enable") ≡ some b)
    pub path :
        (p : String) × (doc : Y.Node) × (Y.as_string (Y.field e "path") ≡ some p)
        × (is_same save_file p ≡ false)
        × (Option.bind (files p) Y.load ≡ some doc)
        × (vm_config_parse doc ≢ threw)

  -- The document of the save file.
  pub record IsSaveNode ⦃O : Os⦄ (files : String → Option Y.Text) (sf : Y.Node) : Type 0 where
    pub map_node : Y.is_scalar sf ≡ false
    pub list : IsList (Y.field sf "domains")
    pub entries : All (IsEntry files) (Y.items (Y.field sf "domains"))

  module _ ⦃O : Os⦄ (files : String → Option Y.Text) where
    pub name_read : (e : Y.Node) → IsEntry files e → (s : String) × (string_at e "name" ≡ some s)
    unfolding string_at at
    name_read e h = (h.name.0, rw (h.map_node) h.name.1)

    pub status_read :
        (e : Y.Node) → IsEntry files e → (s : String) × (string_at e "status" ≡ some s)
    unfolding string_at at
    status_read e h = (h.status.0, rw (h.map_node) h.status.1)

    pub pid_read : (e : Y.Node) → IsEntry files e → (i : ℤ) × (int_at e "pid" ≡ some i)
    unfolding int_at at
    pid_read e h = (h.pid.0, rw (h.map_node) h.pid.1)

    pub flag_read : (e : Y.Node) → IsEntry files e → (b : Bool) × (bool_at e "colo_enable" ≡ some b)
    unfolding bool_at at
    flag_read e h = (h.flag.0, rw (h.map_node) h.flag.1)

    -- The loops end.
    pub mark_loop-total :
        (name : String) (change : Y.Node → Y.Node) (es : List Y.Node) (i : ℕ) (doms : Y.Node)
        → All (IsEntry files) es
        → (doms' : Y.Node) × (mark_loop name change es i doms ≡ some doms')
    unfolding mark_loop
    mark_loop-total name change [] i doms h = (doms, refl)
    mark_loop-total name change (e ∷ es) i doms h =
        let (n, read) = name_read e h.0 in
        let (doms', rest) = mark_loop-total name change es (suc i) doms h.1 in
        elim (Bool-cases (n == name)) [
          | inl same ↦ (Y.set_item doms i (change e), ground (arith, read, same))
          | inr other ↦ (doms', ground (arith, read, other, rest))
        ]

    pub flag_loop-total :
        (name : String) (change : Y.Node → Y.Node) (es : List Y.Node) (i : ℕ) (doms : Y.Node)
        → All (IsEntry files) es
        → (found : Option Y.Node) × (flag_loop name change es i doms ≡ some found)
    unfolding flag_loop
    flag_loop-total name change [] i doms h = (some doms, refl)
    flag_loop-total name change (e ∷ es) i doms h =
        let (n, read) = name_read e h.0 in
        let (s, status) = status_read e h.0 in
        let (found, rest) = flag_loop-total name change es (suc i) doms h.1 in
        elim (Bool-cases (n == name)) [
          | inl same ↦ (
            if s == "shutoff" then some (Y.set_item doms i (change e)) else none,
            ground (arith, read, same, status),
          )
          | inr other ↦ (found, ground (arith, read, other, rest))
        ]

    pub pid_loop-total :
        (name : String) (es : List Y.Node)
        → All (IsEntry files) es
        → (found : Option ℤ) × (pid_loop name es ≡ some found)
    unfolding pid_loop
    pid_loop-total name [] h = (none, refl)
    pid_loop-total name (e ∷ es) h =
        let (n, read) = name_read e h.0 in
        let (p, pid) = pid_read e h.0 in
        let (found, rest) = pid_loop-total name es h.1 in
        elim (Bool-cases (name == n)) [
          | inl same ↦ (some p, ground (arith, read, same, pid))
          | inr other ↦ (found, ground (arith, read, other, rest))
        ]

    -- A change of an entry that keeps its shape keeps that of all.
    pub change_first-entries :
        (name : String) (change : Y.Node → Y.Node) (es : List Y.Node)
        → ((e : Y.Node) → IsEntry files e → IsEntry files (change e))
        → All (IsEntry files) es
        → All (IsEntry files) (change_first name change es)
    change_first-entries name change [] keeps h = tt
    change_first-entries name change (e ∷ es) keeps h = elim (Bool-cases (named name e)) [
      | inl same ↦ rw same (keeps e h.0, h.1)
      | inr other ↦ rw other (h.0, change_first-entries name change es keeps h.1)
    ]

    -- What stays of an entry where its other keys are set.
    module _ (L : IsYaml Y) where
      path_kept :
          (e e' : Y.Node)
          → Y.field e' "path" ≡ Y.field e "path"
          → IsEntry files e
          → (p : String) × (doc : Y.Node) × (Y.as_string (Y.field e' "path") ≡ some p)
            × (is_same save_file p ≡ false)
            × (Option.bind (files p) Y.load ≡ some doc)
            × (vm_config_parse doc ≢ threw)
      path_kept e e' same h =
          let (p, doc, read, other, loads, parses) = h.path in
          (p, doc, rw (same, read) refl, other, loads, parses)

      pub mark_running-IsEntry :
          (pid : ℤ) (e : Y.Node) → IsEntry files e → IsEntry files (mark_running pid e)
      mark_running-IsEntry pid e h = record {
        map_node = L.scalar-set_field _ _ _;
        name = (h.name.0, simp (L.field-set_field, h.name.1));
        pid = (pid, simp (L.field-set_field, L.int-of_int));
        status = ("running", simp (L.field-set_field, L.string-of_string));
        flag = (h.flag.0, simp (L.field-set_field, h.flag.1));
        path = path_kept e _ (simp L.field-set_field) h;
      }

      pub mark_shut_off-IsEntry : (e : Y.Node) → IsEntry files e → IsEntry files (mark_shut_off e)
      mark_shut_off-IsEntry e h = record {
        map_node = L.scalar-set_field _ _ _;
        name = (h.name.0, simp (L.field-set_field, h.name.1));
        pid = (minus_one, simp (L.field-set_field, L.int-of_int));
        status = ("shutoff", simp (L.field-set_field, L.string-of_string));
        flag = (h.flag.0, simp (L.field-set_field, h.flag.1));
        path = path_kept e _ (simp L.field-set_field) h;
      }

      pub mark_colo-IsEntry :
          (cds : ColoDomainStatus) (e : Y.Node) → IsEntry files e → IsEntry files (mark_colo cds e)
      mark_colo-IsEntry cds e h = record {
        map_node = L.scalar-set_field _ _ _;
        name = (h.name.0, simp (L.field-set_field, h.name.1));
        pid = (h.pid.0, simp (L.field-set_field, h.pid.1));
        status = (h.status.0, simp (L.field-set_field, h.status.1));
        flag = (true, simp (L.field-set_field, L.bool-of_bool));
        path = path_kept e _ (simp L.field-set_field) h;
      }

      pub unmark_colo-IsEntry : (e : Y.Node) → IsEntry files e → IsEntry files (unmark_colo e)
      unmark_colo-IsEntry e h = record {
        map_node = L.scalar-set_field _ _ _;
        name = (h.name.0, simp (L.field-set_field, h.name.1));
        pid = (h.pid.0, simp (L.field-set_field, h.pid.1));
        status = (h.status.0, simp (L.field-set_field, h.status.1));
        flag = (false, simp (L.field-set_field, L.bool-of_bool));
        path = path_kept e _ (simp L.field-set_field) h;
      }

      -- The document with a list of entries of this shape.
      pub set_domains-IsSaveNode :
          (sf doms : Y.Node)
          → IsList doms
          → All (IsEntry files) (Y.items doms)
          → IsSaveNode files (Y.set_field sf "domains" doms)
      set_domains-IsSaveNode sf doms list entries = record {
        map_node = L.scalar-set_field _ _ _;
        list = rw L.field-set_field list;
        entries = rw L.field-set_field entries;
      }

      module _ (name : String) (change : Y.Node → Y.Node) where
        module _ (keeps : (e : Y.Node) → IsEntry files e → IsEntry files (change e))
            (sf doms' : Y.Node) (h : IsSaveNode files sf) where
          abbrev doms : Y.Node
          doms = Y.field sf "domains"

          changed :
              Y.is_sequence doms ≡ true
              → Y.is_sequence doms' ≡ true
              → Y.items doms' ≡ change_first name change (Y.items doms)
              → IsSaveNode files (Y.set_field sf "domains" doms')
          changed s s' same =
              set_domains-IsSaveNode sf doms' (inl s')
                (rw same (change_first-entries name change (Y.items doms) keeps h.entries))

          pub marked-IsSaveNode :
              mark_loop name change (Y.items doms) 0 doms ≡ some doms'
              → IsSaveNode files (Y.set_field sf "domains" doms')
          unfolding mark_loop
          marked-IsSaveNode ran = elim h.list [
            | inl s ↦
                changed s (mark_loop-sequence L name change (Y.items doms) 0 doms doms' s ran)
                  (mark_loop-items L name change [] (Y.items doms) 0 doms doms' refl s refl ran)
            | inr empty ↦
                let ran' : mark_loop name change [] 0 doms ≡ some doms' = rw empty at ran in
                let same : doms ≡ doms' = ground (arith, ran') in
                rw (← same) (set_domains-IsSaveNode sf doms h.list h.entries)
          ]

          pub flagged-IsSaveNode :
              flag_loop name change (Y.items doms) 0 doms ≡ some (some doms')
              → IsSaveNode files (Y.set_field sf "domains" doms')
          unfolding flag_loop
          flagged-IsSaveNode ran = elim h.list [
            | inl s ↦
                changed s (flag_loop-sequence L name change (Y.items doms) 0 doms doms' s ran)
                  (flag_loop-items L name change [] (Y.items doms) 0 doms doms' refl s refl ran)
            | inr empty ↦
                let ran' : flag_loop name change [] 0 doms ≡ some (some doms') = rw empty at ran in
                let same : doms ≡ doms' = ground (arith, ran') in
                rw (← same) (set_domains-IsSaveNode sf doms h.list h.entries)
          ]
