-- ===== src/Utils/File.antt =====
-- Files, utils/file/file.go: what is asked of the operating system, and in which order.
use newtbig.Prelude.{
  Bool, true, false, ◌∷◌, ◌++◌, Option, none, some, if◌then◌else◌, Bytes, Result, ok, err,
}

-- What os.Stat says of a path: it is there, it is not, it may not be looked at, or another error.
pub data Stat : Type 0 where
  exists missing denied other_failure : Stat

-- The operating system: the working directory, os.Stat, and whether MkdirAll, OpenFile and
-- WriteString succeed.
pub record System : Type 0 where
  pub cwd : Option Bytes
  pub stat : Bytes → Stat
  pub makes : Bytes → Bool
  pub opens : Bytes → Bool
  pub writes : Bytes → Bytes → Bool

pub data FileError : Type 0 where
  no_cwd : FileError
  permission_denied not_made not_opened not_written : Bytes → FileError

module _ (os : System) where
  unfoldable pub check_not_exist : Bytes → Bool
  check_not_exist src = elim (os.stat src) [ missing ↦ true | _ ↦ false ]

  unfoldable pub check_permission : Bytes → Bool
  check_permission src = elim (os.stat src) [ denied ↦ true | _ ↦ false ]

  unfoldable pub mk_dir : Bytes → Option FileError
  mk_dir src = if os.makes src then none else some (not_made src)

  unfoldable pub is_not_exist_mk_dir : Bytes → Option FileError
  unfolding check_not_exist mk_dir
  is_not_exist_mk_dir src = if check_not_exist src then mk_dir src else none

  unfoldable pub open_file : Bytes → Result FileError Bytes
  open_file name = if os.opens name then ok name else err (not_opened name)

  -- MustOpen: the path that is opened.
  unfoldable pub must_open : Bytes → Bytes → Result FileError Bytes
  unfolding check_permission is_not_exist_mk_dir open_file
  must_open file_name file_path = elim os.cwd [
    | none ↦ err no_cwd
    | some dir ↦
        let src = dir ++ b'/' ∷ file_path in
        if check_permission src
        then err (permission_denied src)
        else elim (is_not_exist_mk_dir src) [ some e ↦ err e | none ↦ open_file (src ++ file_name) ]
  ]

  unfoldable pub write_to_file : Bytes → Bytes → Option FileError
  write_to_file file_name content =
      if os.opens file_name
      then (if os.writes file_name content then none else some (not_written file_name))
      else some (not_opened file_name)
