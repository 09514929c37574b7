-- ===== src/Tests/ConfigTests.antt =====
-- The loader on a file.
use anything_tool.Base.{◌≡◌, refl, [], ◌∷◌, ◌++◌, some, true, false, pos, negsuc}
use anything_tool.Text.{Bytes, codes, c_str}
use anything_tool.Config.{Config, config_init}
use anything_tool.Config.Parse.{parse_long_array}
use anything_tool.Config.Validate.{writable_over}
use anything_tool.Config.Paths.{path_is_under}
use anything_tool.Config.Load.{loaded, load_with_options}

parse_ids : parse_long_array 16 (codes "[1000, -1 ,]") ≡ some (pos 1000 ∷ negsuc 0 ∷ [])
unfolding parse_long_array
parse_ids = refl

abbrev pub config_file : Bytes
config_file =
    codes "[capabilities]\nsys_read = true # on\n"
    ++ (codes "[limits]\nread_timeout_ms = 500\n"
        ++ (codes "[admin]\nallowed_uids = [1000]\nrequire_admin_allowlist = true\n"
            ++ codes "[[paths]]\npath = \"/data\"\nmode = \"read-write\"\n"))

abbrev pub loaded_config : Config
loaded_config = record config_init {
  capability_sys_read = true;
  read_timeout_ms = pos 500;
  admin_allowed_uids = pos 1000 ∷ [];
  paths = record { path = codes "/data"; writable = true } ∷ [];
}

pub load_config_file : load_with_options (some config_file) false ≡ loaded loaded_config
unfolding load_with_options c_str writable_over path_is_under
load_config_file = refl
