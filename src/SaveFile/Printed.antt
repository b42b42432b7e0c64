-- ===== src/SaveFile/Printed.antt =====
-- src/utils/config_parser.cpp, the two functions on the save file that only print: what they print on
-- std::cout, beside the 0 that they return.
use colo_manage_tools.Prelude.{
  ℤ, pos, String, ◌<>◌, Bool, not, ◌&&◌, ◌||◌, Option, some, List, [], ◌∷◌, ◌==◌, if◌then◌else◌,
}
use colo_manage_tools.Prelude.Throws
use colo_manage_tools.Config.{save_file}
use colo_manage_tools.Platform.{Yaml, Os, at}
use colo_manage_tools.World.{M, pure, ◌>>=◌, lift, load_file}
use colo_manage_tools.SaveFile.Document.{string_at, bool_at}

abbrev pub bar : String
bar = "-------------------------------------------\n"

-- `std::cout << b`
abbrev flag_text : Bool → String
flag_text b = if b then "1" else "0"

module _ ⦃Y : Yaml⦄ where
  -- The labels and keys of `get_connect_status()`.
  abbrev status_lines : List (String × String)
  status_lines =
      ("  local status : ", "local_status")
      ∷ ("       host ip : ", "host_ip")
      ∷ ("     host user : ", "host_user")
      ∷ ("host file path : ", "host_file_path")
      ∷ ("       peer ip : ", "peer_ip")
      ∷ ("     peer user : ", "peer_user")
      ∷ ("peer file path : ", "peer_file_path")
      ∷ []

  unfoldable pub print_fields : Y.Node → List (String × String) → String → Option String
  print_fields ss [] text = some text
  print_fields ss ((label, key) ∷ rest) text =
      Throws.◌>>=◌ (string_at ss key) λ s. print_fields ss rest (text <> label <> s <> "\n")

  -- get_connect_status(), on the document
  unfoldable pub print_status : Y.Node → Option String
  unfolding print_fields at
  print_status sf = Throws.◌>>=◌ (at sf "save_status") λ ss.
      Throws.◌>>=◌ (print_fields ss status_lines bar)
        λ text. some (text <> " peer status : " <> "active" <> "\n" <> bar)

  -- The loop of `get_domain_list`.
  unfoldable pub list_entries : Bool → List Y.Node → String → Option String
  list_entries show_all [] text = some text
  list_entries show_all (e ∷ rest) text = Throws.◌>>=◌ (string_at e "status") λ status.
      let more = list_entries show_all rest text in
      if not show_all && status == "shutoff"
      then more
      else Throws.◌>>=◌ (string_at e "name") λ name. Throws.◌>>=◌ (bool_at e "colo_enable") λ colo.
        list_entries show_all rest (
          text
          <> ("       name : " <> name <> "\n")
          <> ("     status : " <> status <> "\n")
          <> ("colo enable : " <> flag_text colo <> "\n")
          <> bar)

  -- get_domain_list, on the document
  unfoldable pub print_domains : Bool → Y.Node → Option String
  unfolding list_entries at
  print_domains show_all sf = Throws.◌>>=◌ (at sf "domains") λ doms.
      list_entries show_all (Y.items doms)
        ((if not (Y.is_defined doms) || Y.is_null doms then "no defined domain.\n" else "") <> bar)

module _ ⦃Y : Yaml⦄ ⦃O : Os⦄ where
  unfoldable pub print_connect_status : M (ℤ × String)
  print_connect_status = do
    sf ← load_file save_file
    text ← lift (print_status sf)
    pure (pos 0, text)

  unfoldable pub get_domain_list : Bool → M (ℤ × String)
  get_domain_list show_all = do
    sf ← load_file save_file
    text ← lift (print_domains show_all sf)
    pure (pos 0, text)
