-- ===== src/SaveFile.antt =====
-- src/utils/config_parser.cpp, the functions on the save file and on the configuration file. What
-- they print is left out; `get_connect_status()` and `get_domain_list`, which only print, are in
-- `Printed`.
pub mod Distinct
pub mod Reload
pub mod Restored
pub mod Document
pub mod Table
pub mod Entries
pub mod Refines
pub mod Marked
pub mod Marks
pub mod Printed
pub mod Intact
pub mod Total
use colo_manage_tools.Prelude.{
  ℤ, pos, minus_one, String, ◌<>◌, Bool, false, not, ◌||◌, Option, none, some, [], if◌then◌else◌,
}
use colo_manage_tools.Config.{ColoStatus, ColoDomainStatus, save_file}
use colo_manage_tools.Platform.{Yaml, Os, ColodDomainStatus, at, set_at}
use colo_manage_tools.World.{
  M, on_option, truncate, pure, ◌>>=◌, ◌>>◌, lift, modify, load_file, write_file,
}
use Document.{
  parse_config, with_status, read_status, domain_node, redefine_loop, mark_loop, mark_running,
  mark_shut_off, mark_colo, unmark_colo, flag_loop, init_loop,
}

module _ ⦃Y : Yaml⦄ ⦃O : Os⦄ where
  unfoldable pub parse_config_file : String → ColoStatus → M (ℤ × ColoStatus)
  parse_config_file path cs = do config ← load_file path; lift (parse_config config cs)

  -- The file is opened, and so truncated, before `sf["save_status"]` can throw.
  unfoldable pub save_colo_status : ColoStatus → M ℤ
  save_colo_status cs = do
    sf ← load_file save_file
    on_option (with_status cs sf) (do truncate save_file; lift none)
        (λ sf'. do write_file save_file sf'; pure (pos 0))

  unfoldable pub get_connect_status : ColoStatus → M (ℤ × ColoStatus)
  get_connect_status cs = do
    sf ← load_file save_file
    cs' ← lift (read_status sf cs)
    pure (pos 0, cs')

  -- sf["domains"] = doms; fout << sf; return 0
  unfoldable pub write_domains : Y.Node → Y.Node → M ℤ
  write_domains sf doms = do write_file save_file (Y.set_field sf "domains" doms); pure (pos 0)

  -- `err` comes back beside the code; it is "" where the code leaves it alone.
  unfoldable pub save_domain_info : ColodDomainStatus → M (ℤ × String)
  unfolding write_domains
  save_domain_info ds = do
    sf ← load_file save_file
    doms ← lift (at sf "domains")
    let dom = domain_node ds
    if not (Y.is_defined doms) || Y.is_null doms
        then (do r ← write_domains sf (Y.push_back doms dom); pure (r, ""))
        else (if not (Y.is_sequence doms)
            then pure (minus_one, "wrong format in save file.")
            else (do
              loop ← lift (redefine_loop ds.name dom (Y.items doms) 0 doms false)
              let (doms', redefined) = loop
              r ← write_domains sf (if redefined then doms' else Y.push_back doms' dom)
              pure (r, "")))

  unfoldable pub save_domain_pid : String → ℤ → M ℤ
  unfolding write_domains
  save_domain_pid name pid = do
    sf ← load_file save_file
    doms ← lift (at sf "domains")
    doms' ← lift (mark_loop name (mark_running pid) (Y.items doms) 0 doms)
    write_domains sf doms'

  unfoldable pub remove_domain_pid : String → M ℤ
  unfolding write_domains
  remove_domain_pid name = do
    sf ← load_file save_file
    doms ← lift (at sf "domains")
    if not (Y.is_defined doms) || Y.is_null doms then pure minus_one else do
      doms' ← lift (mark_loop name mark_shut_off (Y.items doms) 0 doms)
      write_domains sf doms'

  -- The end of `set_domain_colo_enable` and `set_domain_colo_disable`.
  unfoldable pub write_flagged : Y.Node → Option Y.Node → M ℤ
  unfolding write_domains
  write_flagged sf none = pure minus_one
  write_flagged sf (some doms) = write_domains sf doms

  unfoldable pub set_domain_colo_enable : String → ColoDomainStatus → M ℤ
  unfolding write_flagged
  set_domain_colo_enable name cds = do
    sf ← load_file save_file
    doms ← lift (at sf "domains")
    flagged ← lift (flag_loop name (mark_colo cds) (Y.items doms) 0 doms)
    write_flagged sf flagged

  unfoldable pub set_domain_colo_disable : String → M ℤ
  unfolding write_flagged
  set_domain_colo_disable name = do
    sf ← load_file save_file
    doms ← lift (at sf "domains")
    flagged ← lift (flag_loop name unmark_colo (Y.items doms) 0 doms)
    write_flagged sf flagged

  -- It is called on `rs.domains`.
  unfoldable pub domains_init : M ℤ
  domains_init = do
    sf ← load_file save_file
    doms ← lift (at sf "domains")
    if not (Y.is_defined doms) || Y.is_null doms then pure (pos 0) else (λ w.
        (do
          ds_map ← lift (init_loop (Y.items doms) w.domains)
          modify (λ w'. record w' { domains = ds_map })
          pure (pos 0))
          w)
