-- ===== src/SaveFile/Total.antt =====
-- The functions on the save file come back in a world whose save file can be read, and leave it so.
use mathlib.Core.Option
use colo_manage_tools.Prelude.{
  ℤ, pos, minus_one, is_minus_one, String, not, ◌||◌, none, some, List, [], ◌∷◌, All, ◌≡◌, arith,
  Bool-cases, Option-cases, inl, inr, if◌then◌else◌,
}
use colo_manage_tools.Config.{ColoDomainStatus, ColoStatus, save_file}
use colo_manage_tools.Platform.{Yaml, Os, at, set_at}
use colo_manage_tools.Platform.Laws.{IsYaml}
use colo_manage_tools.World.{World, is_same, ◌>>=◌, load_file, write_file}
use colo_manage_tools.World.Returns.{Returns, IsSteady}
use colo_manage_tools.SaveFile.{
  save_colo_status, save_domain_pid, remove_domain_pid, set_domain_colo_enable,
  set_domain_colo_disable,
}
use colo_manage_tools.SaveFile.Document.{
  status_node, with_status, mark_running, mark_shut_off, mark_colo, unmark_colo,
}
use colo_manage_tools.SaveFile.Intact.{
  IsEntry, IsSaveNode, mark_loop-total, flag_loop-total, pid_loop-total, mark_running-IsEntry,
  mark_shut_off-IsEntry, mark_colo-IsEntry, unmark_colo-IsEntry, marked-IsSaveNode,
  flagged-IsSaveNode,
}
use colo_manage_tools.RunVm.{get_domain_pid}

module _ ⦃Y : Yaml⦄ ⦃O : Os⦄ where
  -- The save file can be read.
  pub record IsIntact (w : World) : Type 0 where
    pub node : Y.Node
    pub loads : Option.bind (w.files save_file) Y.load ≡ some node
    pub shape : IsSaveNode w.files node

  pub IsIntact-IsSteady : IsSteady IsIntact
  IsIntact-IsSteady = record {
    same = λ w w' files h. record {
      node = h.node;
      loads = rw (← files) h.loads;
      shape = rw (← files) h.shape;
    };
  }

  abbrev pub with_save_file : World → Y.Node → World
  with_save_file w sf = record w {
    files = λ p. if is_same save_file p then some (Y.emit sf) else w.files p;
  }

  module _ (L : IsYaml Y) where
    IsEntry-kept :
        (w : World) (sf e : Y.Node) → IsEntry w.files e → IsEntry (with_save_file w sf).files e
    IsEntry-kept w sf e h = record {
      map_node = h.map_node;
      name = h.name;
      pid = h.pid;
      status = h.status;
      flag = h.flag;
      path =
          let (p, doc, read, other, loads, parses) = h.path in
          (p, doc, read, other, rw other loads, parses);
    }

    entries_kept :
        (w : World) (sf : Y.Node) (es : List Y.Node)
        → All (IsEntry w.files) es
        → All (IsEntry (with_save_file w sf).files) es
    entries_kept w sf [] h = tt
    entries_kept w sf (e ∷ es) h = (IsEntry-kept w sf e h.0, entries_kept w sf es h.1)

    pub with_save_file-IsIntact :
        (w : World) (sf : Y.Node)
        → IsIntact w
        → IsSaveNode w.files sf
        → IsIntact (with_save_file w sf)
    unfolding Option.bind
    with_save_file-IsIntact w sf h s = record {
      node = sf;
      loads = L.load-emit sf;
      shape = record {
        map_node = s.map_node;
        list = s.list;
        entries = entries_kept w sf _ s.entries;
      };
    }

    pub Returns-save_colo_status : (cs : ColoStatus) → Returns IsIntact (save_colo_status cs)
    unfolding save_colo_status with_status set_at load_file write_file ◌>>=◌
    Returns-save_colo_status cs = record {
      at = λ w h.
          let sf' = Y.set_field h.node "save_status" (status_node cs) in
          let same = L.field-set_field h.node (status_node cs) "save_status" "domains" in
          (
            pos 0,
            with_save_file w sf',
            ground (arith, h.loads, h.shape.map_node),
            with_save_file-IsIntact w sf' h (record {
              map_node = L.scalar-set_field _ _ _;
              list = rw same h.shape.list;
              entries = rw same h.shape.entries;
            }),
          );
    }

    pub Returns-save_domain_pid :
        (name : String) (pid : ℤ) → Returns IsIntact (save_domain_pid name pid)
    unfolding save_domain_pid load_file write_file at ◌>>=◌
    Returns-save_domain_pid name pid = record {
      at = λ w h.
          let doms = Y.field h.node "domains" in
          let change = mark_running pid in
          let (doms', ran) =
            mark_loop-total w.files name change (Y.items doms) 0 doms h.shape.entries in
          let sf' = Y.set_field h.node "domains" doms' in
          (
            pos 0,
            with_save_file w sf',
            ground (arith, h.loads, h.shape.map_node, ran),
            with_save_file-IsIntact w sf' h (
                marked-IsSaveNode w.files L name change (mark_running-IsEntry w.files L pid) h.node
                  doms' h.shape ran),
          );
    }

    pub Returns-remove_domain_pid : (name : String) → Returns IsIntact (remove_domain_pid name)
    unfolding remove_domain_pid load_file write_file at ◌>>=◌
    Returns-remove_domain_pid name = record {
      at = λ w h.
          let doms = Y.field h.node "domains" in
          let (doms', ran) =
            mark_loop-total w.files name mark_shut_off (Y.items doms) 0 doms h.shape.entries in
          let sf' = Y.set_field h.node "domains" doms' in
          elim (Bool-cases (not (Y.is_defined doms) || Y.is_null doms)) [
            | inl undefined ↦
                (minus_one, w, ground (arith, h.loads, h.shape.map_node, undefined), h)
            | inr defined ↦ (
              pos 0,
              with_save_file w sf',
              ground (arith, h.loads, h.shape.map_node, ran, defined),
              with_save_file-IsIntact w sf' h (
                  marked-IsSaveNode w.files L name mark_shut_off (mark_shut_off-IsEntry w.files L)
                    h.node doms' h.shape ran),
            )
          ];
    }

    pub Returns-set_domain_colo_enable :
        (name : String) (cds : ColoDomainStatus)
        → Returns IsIntact (set_domain_colo_enable name cds)
    unfolding set_domain_colo_enable load_file write_file at ◌>>=◌
    Returns-set_domain_colo_enable name cds = record {
      at = λ w h.
          let doms = Y.field h.node "domains" in
          let change = mark_colo cds in
          let (found, ran) =
            flag_loop-total w.files name change (Y.items doms) 0 doms h.shape.entries in
          elim (Option-cases found) [
            | inr stopped ↦
                (minus_one, w, ground (arith, h.loads, h.shape.map_node, ran, stopped), h)
            | inl (doms', written) ↦
                let sf' = Y.set_field h.node "domains" doms' in
                (
                  pos 0,
                  with_save_file w sf',
                  ground (arith, h.loads, h.shape.map_node, ran, written),
                  with_save_file-IsIntact w sf' h (
                      flagged-IsSaveNode w.files L name change (mark_colo-IsEntry w.files L cds)
                        h.node doms' h.shape (ground (arith, ran, written))),
                )
          ];
    }

    pub Returns-set_domain_colo_disable :
        (name : String) → Returns IsIntact (set_domain_colo_disable name)
    unfolding set_domain_colo_disable load_file write_file at ◌>>=◌
    Returns-set_domain_colo_disable name = record {
      at = λ w h.
          let doms = Y.field h.node "domains" in
          let (found, ran) =
            flag_loop-total w.files name unmark_colo (Y.items doms) 0 doms h.shape.entries in
          elim (Option-cases found) [
            | inr stopped ↦
                (minus_one, w, ground (arith, h.loads, h.shape.map_node, ran, stopped), h)
            | inl (doms', written) ↦
                let sf' = Y.set_field h.node "domains" doms' in
                (
                  pos 0,
                  with_save_file w sf',
                  ground (arith, h.loads, h.shape.map_node, ran, written),
                  with_save_file-IsIntact w sf' h (
                      flagged-IsSaveNode w.files L name unmark_colo (unmark_colo-IsEntry w.files L)
                        h.node doms' h.shape (ground (arith, ran, written))),
                )
          ];
    }

  pub Returns-get_domain_pid : (name : String) → Returns IsIntact (get_domain_pid name)
  unfolding get_domain_pid load_file at ◌>>=◌
  Returns-get_domain_pid name = record {
    at = λ w h.
        let (found, ran) =
          pid_loop-total w.files name (Y.items (Y.field h.node "domains")) h.shape.entries in
        (
          elim found [ none ↦ none | some p ↦ if is_minus_one p then none else some p ],
          w,
          ground (arith, h.loads, h.shape.map_node, ran),
          h,
        );
  }
