-- ===== src/Tests/Parse.antt =====
-- A sample document of a domain.
use colo_manage_tools.Prelude.{◌≡◌, refl}
use colo_manage_tools.Platform.Sample.{sample_yaml}
use colo_manage_tools.Domain.Parse.{accepted, vm_config_parse}
use colo_manage_tools.Domain.Parse.Complete.{IsDocument, vm_config_parse-accepted}
use colo_manage_tools.Tests.Data.{vm_doc, vm_definition}

vm_doc-IsDocument : IsDocument vm_doc vm_definition
vm_doc-IsDocument = record {
  maps = (refl, refl, refl, refl);
  named = refl;
  machine = ((refl, refl), (refl, refl), refl, (refl, refl), refl, (refl, refl));
  os = (refl, (refl, refl), (refl, refl), (refl, refl), (refl, refl));
  display = (refl, (refl, refl));
  disk = (refl, (refl, (refl, refl), (refl, refl), refl, (refl, refl), (refl, refl), (refl, refl)));
  net = (refl, (refl, (refl, refl), (refl, refl), (refl, refl), (refl, refl)));
  colo = (
    refl,
    refl,
    (refl, (refl, refl), (refl, refl), (refl, refl), (refl, refl), (refl, refl)),
    refl,
    (refl, (refl, refl), (refl, refl), (refl, refl), (refl, refl), (refl, refl)),
  );
}

vm_config_parse-accepted_example : vm_config_parse vm_doc ≡ accepted vm_definition
vm_config_parse-accepted_example = vm_config_parse-accepted vm_doc vm_definition vm_doc-IsDocument
