-- ===== src/SysInfo.antt =====
-- src/tools/sys_info.c: the one tool that the daemon executes.
use anything_tool.Base.{
  ℕ, Bool, ◌||◌, Option, none, some, ◌++◌, leb, ◌==◌, if◌then◌else◌, length, ◌>>=◌,
}
use anything_tool.Text.{Bytes, codes, clip}
use anything_tool.Text.Lines.{fgets, strip_end}
use anything_tool.Json.{escape_string}

-- struct utsname
pub record Uname : Type 0 where
  pub nodename : Bytes
  pub release : Bytes
  pub machine : Bytes

-- What the system answers: `none` where uname or fopen fails, else the file's bytes.
pub record SystemFacts : Type 0 where
  pub uname : Option Uname
  pub uptime_file : Option Bytes
  pub os_release_file : Option Bytes

-- A newline or carriage return goes where only such follow it.
abbrev is_newline : ℕ → Bool
is_newline c = c == b'\n' || c == b'\r'

unfoldable pub strip_newline : Bytes → Bytes
unfolding strip_end
strip_newline text = strip_end is_newline text

unfoldable pub read_first_line : ℕ → Option Bytes → Bytes
unfolding fgets strip_newline
read_first_line n none = clip n (codes "unknown")
read_first_line n (some content) =
    strip_newline (elim (fgets n content) [ none ↦ clip n (codes "unknown") | some s ↦ s ])

unfoldable pub sys_info_text : Bytes → Bytes → Bytes → Bytes → Bytes → Bytes
sys_info_text hostname kernel os_release uptime arch =
    codes "{\"version\":\"v0.1.1\",\"hostname\":\""
    ++ (hostname
        ++ (codes "\",\"kernel_version\":\""
            ++ (kernel
                ++ (codes "\",\"os_release\":\""
                    ++ (os_release
                        ++ (codes "\",\"uptime\":\""
                            ++ (uptime
                                ++ (codes "\",\"architecture\":\"" ++ (arch ++ codes "\"}")))))))))

pub data SysInfo : Type 0 where
  report : Bytes → SysInfo
  failure : Bytes → SysInfo

-- The five escaped texts, in their buffers.
unfoldable pub escaped_facts : Uname → Bytes → Bytes → Option Bytes
unfolding sys_info_text
escaped_facts uts uptime os_release = do
  hostname_json ← escape_string (some uts.nodename) 256
  kernel_json ← escape_string (some uts.release) 256
  os_release_json ← escape_string (some os_release) 512
  uptime_json ← escape_string (some uptime) 128
  arch_json ← escape_string (some uts.machine) 128
  some (sys_info_text hostname_json kernel_json os_release_json uptime_json arch_json)

-- snprintf into a buffer of n bytes, with its check.
unfoldable pub bounded_report : ℕ → Option Bytes → SysInfo
bounded_report n none = failure (codes "sys.info JSON escaping failed")
bounded_report n (some text) =
    if leb n (length text) then failure (codes "sys.info output exceeded buffer") else report text

unfoldable pub sys_info_json : ℕ → SystemFacts → SysInfo
unfolding escaped_facts bounded_report read_first_line
sys_info_json n facts = elim facts.uname [
  | none ↦ failure (codes "uname failed")
  | some uts ↦ bounded_report n (
      escaped_facts uts (read_first_line 64 facts.uptime_file)
        (read_first_line 256 facts.os_release_file))
]
