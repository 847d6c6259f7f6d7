-- ===== src/Capacity/File.antt =====
-- `ordinary` of scripts/desktop_gitlab_capacity_claim.py: what lstat may say of a path.
use desktop_pc24x7_runtime.Prelude.{ℕ, Bool, not, ◌&&◌, ◌||◌, eqb, if◌then◌else◌}
use desktop_pc24x7_runtime.Result.{Result, ok, ◌>>◌}
use desktop_pc24x7_runtime.Capacity.Metadata.{require}

-- The fields of os.stat_result that the scripts read; `is_reparse` is the bit 0x400 of the attributes.
pub record Info : Type 0 where
  pub is_link : Bool
  pub is_reparse : Bool
  pub is_directory : Bool
  pub is_regular : Bool
  pub links : ℕ
  pub size : ℕ
  pub device : ℕ
  pub inode : ℕ

unfoldable pub ordinary : Info → Bool → Result Info
ordinary info directory = do
  require (not info.is_link && not info.is_reparse) "REPARSE_REJECTED"
  require (if directory then info.is_directory else info.is_regular) "FILE_TYPE_REJECTED"
  require (directory || eqb info.links 1) "HARDLINK_REJECTED"
  ok info

-- (a.st_dev, a.st_ino) == (b.st_dev, b.st_ino)
abbrev pub same_file : Info → Info → Bool
same_file a b = eqb a.device b.device && eqb a.inode b.inode
