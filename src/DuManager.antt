-- ===== src/DuManager.antt =====
-- The command line tool du-manager/main.cpp. What getopt_long finds is an argument; --ls only
-- prints.
pub mod Options
use ymir_project.Base.{
  ℕ, zero, suc, ◌+◌, ◌-◌, Bool, true, false, not, Option, none, some, List, [], ◌∷◌, ◌==◌, ltb,
  if◌then◌else◌, length, drop, get_elem?,
}
use ymir_project.StringClass.{text_eq}
use ymir_project.Host.{ℤ, pos, Text, text, M, ◌>>=◌, pure, null_read}
use ymir_project.Units.{DeploymentUnit, is_nil}
use ymir_project.Units.Cache.{Json, Conversions}
use ymir_project.Units.Helper.{Units, load_cache, add_deployment_unit, remove_deployment_unit}
use ymir_project.Uuid.{generate}

-- What the options of --install set; a pointer that is not set is null. uuidStr is an lxcd::string: the
-- text up to its terminator, and the size that it records.
pub record InstallArgs : Type 0 where
  pub container : Option Text
  pub path : Option Text
  pub uuid : Text
  pub uuid_size : ℕ

unfoldable pub no_args : InstallArgs
no_args = record { container = none; path = none; uuid = []; uuid_size = 0 }

-- uuidStr = v, by the operator that assigns a C string: the recorded size only grows.
unfoldable pub assign_uuid : Text → InstallArgs → InstallArgs
assign_uuid v s = record s {
  uuid = v;
  uuid_size = if ltb s.uuid_size (length v) then length v else s.uuid_size;
}

-- The loop over the options of --install: none for an option that is unknown or has no value.
unfoldable pub read_options : List Text → InstallArgs → Option InstallArgs
read_options [] s = some s
read_options (o ∷ []) s = none
read_options (o ∷ v ∷ rest) s =
    let with_container = read_options rest (record s { container = some v }) in
    let with_path = read_options rest (record s { path = some v }) in
    let with_uuid = read_options rest (assign_uuid v s) in
    if text_eq o (text "-e")
    then with_container
    else if text_eq o (text "-d")
    then with_path
    else if text_eq o (text "-u")
    then with_uuid
    else none

module _ (print : List Json → Text) (parse : Text → Option (List Json))
    (conversions : Conversions) where
  -- The end of --install.
  unfoldable pub add_unit : (container path uuid : Text) → Units → M ℤ
  add_unit container path uuid us = do
    r ← add_deployment_unit print parse container path uuid us
    pure (if is_nil r.1.name then pos 1 else pos 0)

  unfoldable pub install_args : InstallArgs → Units → M ℤ
  install_args s us = elim s.container [
    | none ↦ pure (pos 1)
    | some container ↦ elim s.path [
      | none ↦ pure (pos 1)
      | some path ↦
          if s.uuid_size == 0
          then (generate >>= λ uuid. add_unit container path uuid us)
          else add_unit container path s.uuid us
    ]
  ]

  -- --install, with the arguments from optind - 1 on.
  unfoldable pub install : List Text → Units → M ℤ
  install options us = elim (read_options options no_args) [
    | none ↦ pure (pos 1)
    | some s ↦ install_args s us
  ]

  -- --remove
  unfoldable pub remove : (argv : List Text) → (optind : ℕ) → Units → M ℤ
  remove argv optind us =
      if not (length argv == optind + 1) then pure (pos 1) else elim (get_elem? argv optind) [
        | none ↦ null_read
        | some uuid ↦
            remove_deployment_unit print parse uuid us >>= λ r. pure (if r.1 then pos 0 else pos 1)
      ]

  -- main, for the option and the optind of getopt_long, and the arguments as it leaves them; no
  -- option is -1.
  unfoldable pub main : (argv : List Text) → (option : Option ℕ) → (optind : ℕ) → M ℤ
  main argv option optind =
      if ltb (length argv) 2
      then pure (pos 1)
      else (load_cache print parse conversions >>= λ us. elim option [
        | none ↦ pure (pos 0)
        | some c ↦
            if c == 108
            then pure (pos 0)
            else if c == 105
            then install (drop (optind - 1) argv) us
            else if c == 114
            then remove argv optind us
            else pure (pos 1)
      ])
