-- ===== src/Config/Secret.antt =====
-- config/config.go, `resolveSecret`: a secret from the configuration, the environment or a file. The
-- environment and the files, relative to the directory of the configuration, are parameters.
use frps_gateway.Base.{ℕ, ◌+◌, String, ◌==◌, Bool, Option, none, some, ltb, if◌then◌else◌}

pub data SecretError : Type 0 where
  many_sources empty_variable unreadable empty_file : SecretError

pub data Secret : Type 0 where
  secret : String → Secret
  no_secret : SecretError → Secret

module _ (trim : String → String) (lookup_env : String → Option String) (is_abs : String → Bool)
    (join : String → String → String) (read_file : String → Option String) where
  abbrev pub is_given : String → ℕ
  is_given v = if trim v == "" then 0 else 1

  abbrev pub from_env : Option String → Secret
  from_env none = no_secret empty_variable
  from_env (some v) = if trim v == "" then no_secret empty_variable else secret (trim v)

  abbrev pub from_file : Option String → Secret
  from_file none = no_secret unreadable
  from_file (some b) = if trim b == "" then no_secret empty_file else secret (trim b)

  abbrev pub located : String → String → String
  located base_dir name = if is_abs name then name else join base_dir name

  -- resolveSecret
  pub resolve_secret : String → String → String → String → Secret
  resolve_secret direct env_name file_name base_dir =
      if ltb 1 (is_given direct + is_given env_name + is_given file_name)
      then no_secret many_sources
      else if env_name == ""
      then (if file_name == ""
          then secret (trim direct)
          else from_file (read_file (located base_dir file_name)))
      else from_env (lookup_env env_name)
