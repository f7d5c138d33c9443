-- ===== src/Provisioning/Files.antt =====
-- The env file that service/src/cli/provisioning.ts reads and appends to. The patterns of its
-- regular expressions are written out: white space there takes in line ends, as in `trim`. What a
-- regular expression does whose text takes in more than letters, digits and underscores of a tenant's
-- id is a parameter.
use Prim.Native.Char.{code}
use vcalm_status_service.Common.{
  ℕ, String, Bool, true, false, not, ◌&&◌, ◌||◌, Option, none, some, [], ◌∷◌, ◌==◌, nat_eq,
  string_eq, if◌then◌else◌, is_some, contains, leb,
}
use vcalm_status_service.Common.Text.{◌⧺◌}
use vcalm_status_service.Common.Ascii.{upper_case, trim_start, trim_end}
use vcalm_status_service.Common.Prefix.{strip_prefix}
use vcalm_status_service.Errors.{
  Result, ok, err, Action, pure, lift, throw_if, ◌>>=◌, ◌>>◌, plain_error, provisioning_error,
}
use vcalm_status_service.Common.Chars.{all_chars}

-- Line ends: where `^` and `$` match under the flag m, and what `.` does not match.
abbrev pub is_break : ℕ → Bool
is_break c = contains c (10 ∷ 13 ∷ 8232 ∷ 8233 ∷ [])

-- `a` or else `b`
abbrev pub first_of : Option String → Option String → Option String
first_of none b = b
first_of (some a) b = some a

-- What is found at the first line after the start of the text at which something is.
abbrev pub at_later_line : (String → Option String) → String → Option String
at_later_line found String.[] = none
at_later_line found (String.◌∷◌ c s) =
    let later = at_later_line found s in
    if is_break (code c) then first_of (found s) later else later

abbrev pub at_some_line : (String → Option String) → String → Option String
at_some_line found s = first_of (found s) (at_later_line found s)

abbrev pub after_equals : Option String → Option String
after_equals none = none
after_equals (some s) = strip_prefix "=" (trim_start s)

-- What follows `^\s*NAME\s*=` at a line.
abbrev pub after_name : String → String → Option String
after_name name s = after_equals (strip_prefix name (trim_start s))

-- What stands for itself in a regular expression: a letter, a digit or an underscore.
abbrev pub is_word : ℕ → Bool
is_word c =
    leb b'a' c && leb c b'z' || leb b'A' c && leb c b'Z' || leb b'0' c && leb c b'9' || c == b'_'

-- `hasTenant`. `reg_exp` makes a regular expression of a text, with the flag m, and tests another for
-- it; it throws if the text is none.
unfoldable pub has_tenant : (String → String → Result Bool) → String → String → Result Bool
has_tenant reg_exp contents tenant_id =
    let name = "TENANT_TOKEN_" ⧺ upper_case tenant_id in
    if all_chars is_word (upper_case tenant_id)
    then ok (is_some (at_some_line (after_name name) contents))
    else reg_exp ("^\\s*" ⧺ name ⧺ "\\s*=") contents

-- `.*` at the start
abbrev pub line : String → String
line String.[] = ""
line (String.◌∷◌ c s) = let rest = line s in if is_break (code c) then "" else String.◌∷◌ c rest

-- The last character that `.` matches, of white space that ends the text.
abbrev pub last_blank : String → Option String
last_blank String.[] = none
last_blank (String.◌∷◌ c s) =
    first_of (last_blank s) (if is_break (code c) then none else some (String.◌∷◌ c ""))

-- `\s*(.+?)\s*$`: the group takes the rest of the line from the first character that is no white
-- space, on whatever line that is, less white space at its end.
abbrev pub value_of : String → Option String
value_of s =
    let rest = trim_start s in if rest == "" then last_blank s else some (trim_end (line rest))

abbrev pub value_after : Option String → Option String
value_after none = none
value_after (some s) = value_of s

abbrev pub is_quote : ℕ → Bool
is_quote c = c == b'"' || c == b'\''

abbrev pub without_first_quote : String → String
without_first_quote String.[] = ""
without_first_quote (String.◌∷◌ c s) = if is_quote (code c) then s else String.◌∷◌ c s

abbrev pub without_last_quote : String → String
without_last_quote String.[] = ""
without_last_quote (String.◌∷◌ c s) =
    let rest = without_last_quote s in
    if s == "" && is_quote (code c) then "" else String.◌∷◌ c rest

-- `value?.replace(/^["']|["']$/g, '')`, and nothing for the empty text
abbrev pub unquoted : Option String → Option String
unquoted none = none
unquoted (some s) =
    let value = without_last_quote (without_first_quote s) in
    if value == "" then none else some value

unfoldable pub base_url_from_env_file : String → Option String
base_url_from_env_file contents =
    unquoted (at_some_line (λ s. value_after (after_name "PUBLIC_BASE_URL" s)) contents)

-- `contents.endsWith('\n')`
abbrev pub ends_line : String → Bool
ends_line String.[] = false
ends_line (String.◌∷◌ c s) = s == "" && code c == 10 || ends_line s

abbrev pub separator : String → String
separator contents = if ends_line contents || contents == "" then "\n" else "\n\n"

abbrev pub new_file_header : String
new_file_header = "# Written by `pnpm provision-tenant`. Secrets — never commit this file.\n"

-- `EnvFileWrite`, without the path
pub record EnvFileWrite : Type 0 where
  pub created : Bool
  pub base_url : Option String

-- The env file: its contents, if it is there, and whether it can be read and written.
pub record EnvFile : Type 0 where
  pub contents : Option String
  pub readable : Bool
  pub writable : Bool

-- What `readFile` gives; any failure counts as a file that is not there.
abbrev pub read_file : EnvFile → Option String
read_file f = if f.readable then f.contents else none

-- `writeFile` and `appendFile`, by what the file then holds.
abbrev pub write_file : String → Action EnvFile (Unit {0})
write_file text f =
    if f.writable then (ok tt, record f { contents = some text }) else (err plain_error, f)

module _ (reg_exp : String → String → Result Bool) (block tenant_id : String) (force : Bool) where
  abbrev pub held_in : String → Result Bool
  held_in contents = if tenant_id == "" then ok false else has_tenant reg_exp contents tenant_id

  abbrev pub append_to : Option String → Action EnvFile EnvFileWrite
  append_to none = do
    write_file (new_file_header ⧺ "\n" ⧺ block)
    pure (record { created = true; base_url = none })
  append_to (some contents) = do
    held ← lift (held_in contents)
    throw_if (held && not force) provisioning_error
    write_file (contents ⧺ separator contents ⧺ block)
    pure (record { created = false; base_url = base_url_from_env_file contents })

  -- `appendEnvBlock`
  unfoldable pub append_env_block : Action EnvFile EnvFileWrite
  append_env_block f = append_to (read_file f) f
