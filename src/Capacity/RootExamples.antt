-- ===== src/Capacity/RootExamples.antt =====
-- An audit root of the process, in a directory of the system that everybody may read.

use desktop_pc24x7_runtime.Prelude.{ℕ, refl, true, false, some, List, [], ◌∷◌, String, ◌==◌}
use desktop_pc24x7_runtime.Capacity.File.{Info, ordinary}
use desktop_pc24x7_runtime.Capacity.Root.{
  Identity, Ace, Directory, Machine, windows_private_root, pin, each, verify_security, check_aces,
  check_ace, grants_mutation, is_inherit_only,
}
use desktop_pc24x7_runtime.Capacity.Root.Private.{IsGuarded, windows_private_root-IsGuarded}

abbrev process : Identity
process = record {
  current = "S-1-5-21-1";
  installer = "S-1-5-80-1";
  equal_sid = λ a b. a == b;
  is_well_known = λ sid kind. sid == "S-1-5-18";
}

abbrev grant : ℕ → String → Ace
grant mask sid = record { is_there = true; kind = 0; flags = 0; size = 20; mask = mask; sid = sid }

abbrev folder : Info
folder = record {
  is_link = false;
  is_reparse = false;
  is_directory = true;
  is_regular = false;
  links = 1;
  size = 0;
  device = 3;
  inode = 7;
}

abbrev directory : String → List Ace → Directory
directory owner aces = record {
  before = folder;
  is_opened = true;
  observed = folder;
  has_information = true;
  is_directory = true;
  is_reparse = false;
  index_high = 0;
  index_low = 7;
  security = record { is_available = true; owner = some owner; dacl = some aces };
}

abbrev machine : Machine
machine = record {
  is_local = true;
  is_fixed = true;
  is_ntfs = true;
  has_token = true;
  token_size = 44;
  has_identity = true;
  has_installer = true;
  ancestors = directory "S-1-5-18" (grant 1179785 "S-1-1-0" ∷ grant 2032127 "S-1-5-18" ∷ []) ∷ [];
  root = directory "S-1-5-21-1" (grant 2032127 "S-1-5-21-1" ∷ []);
}

windows_private_root-IsGuarded_example : IsGuarded process machine
unfolding windows_private_root pin each verify_security check_aces check_ace grants_mutation
    is_inherit_only ordinary
windows_private_root-IsGuarded_example = windows_private_root-IsGuarded process machine refl
