-- ===== src/Units/Helper.antt =====
-- DeploymentUnitHelper of liblxcd/deployment_unit_helper.cpp. The map `deploymentUnits` is the list
-- of its pairs in the order of the keys.
pub mod Release
pub mod Answer
use ymir_project.Base.{
  ℕ, Bool, true, false, not, Option, none, some, List, [], ◌∷◌, ◌++◌, if◌then◌else◌, length,
}
use ymir_project.StringClass.{text_eq, text_lt, strstr}
use ymir_project.Container.{get_lxc_path}
use ymir_project.Units.{
  DeploymentUnit, Service, new_unit, is_nil, create_directories, mount_squashfs, prepare, install,
  du_remove,
}
use ymir_project.Units.Cache.{Json, Conversions, cache_of, units_of}
use ymir_project.Host.{
  ℤ, is_negative, is_zero, is_minus_one, Text, text, M, ◌>>=◌, ◌>>◌, pure, ask, number, holds,
  perform, or_empty, null_read, when_, open_path, close_fd, write_fd, open_file, close_file,
  read_file, lxc_container_new, lxc_is_defined, lxc_is_running, lxc_start, lxc_stop, lxc_put,
  lxc_get_config_item, lxc_clear_config, lxc_load_config, lxc_save_config, lxc_clear_config_item,
  lxc_set_config_item,
}

abbrev pub Units : Type 0
Units = List (Text × DeploymentUnit)

-- insert does not replace the value of a key that is there.
unfoldable pub insert_unit : Text → DeploymentUnit → Units → Units
insert_unit k du [] = (k, du) ∷ []
insert_unit k du ((l, e) ∷ us) =
    let rest = insert_unit k du us in
    if text_lt l k
    then (l, e) ∷ rest
    else if text_eq l k
    then (l, e) ∷ us
    else (k, du) ∷ (l, e) ∷ us

-- getDeploymentUnit
unfoldable pub get_unit : Text → Units → Option DeploymentUnit
get_unit name [] = none
get_unit name ((k, du) ∷ us) =
    let rest = get_unit name us in if text_eq du.name name then some du else rest

-- The unit that removeDeploymentUnit works on, and the units without it.
unfoldable pub find_uuid : Text → Units → Option DeploymentUnit
find_uuid uuid [] = none
find_uuid uuid ((k, du) ∷ us) =
    let rest = find_uuid uuid us in if text_eq uuid du.uuid then some du else rest

unfoldable pub erase_uuid : Text → Units → Units
erase_uuid uuid [] = []
erase_uuid uuid ((k, du) ∷ us) =
    let rest = erase_uuid uuid us in if text_eq uuid du.uuid then us else (k, du) ∷ rest

abbrev pub rootfs_key : Text
rootfs_key = text "lxc.rootfs.path"

abbrev pub index_path : Text
index_path = text "/opt/lxcd/share/index.json"

-- freeContainer of a pointer that is not null.
unfoldable pub free_container : Text → M (Unit {0})
free_container c = perform (lxc_put c)

-- Both failing ends of restartContainer and of updateFullRootPath give the container back.
unfoldable pub give_up : Text → M Bool
give_up c = free_container c >> pure false

-- restartContainer
unfoldable pub start_again : Text → M Bool
start_again c = do ok ← holds (lxc_start c); if ok then pure true else give_up c

unfoldable pub restart_container : Text → M Bool
restart_container c = do
  running ← holds (lxc_is_running c)
  if running
      then (do stopped ← holds (lxc_stop c); if stopped then start_again c else give_up c)
      else start_again c

-- The root file systems of the units of one container, each behind a colon.
unfoldable pub rootfs_paths : Text → Units → Text
rootfs_paths c [] = []
rootfs_paths c ((k, du) ∷ us) =
    let rest = rootfs_paths c us in
    if text_eq du.exec_env_ref c then (text ":" ++ du.rootfs_path) ++ rest else rest

unfoldable pub rootfs_backend : Text → Text → Units → Text
rootfs_backend path c us =
    (((text "overlay:" ++ ((path ++ c) ++ text "/rootfs")) ++ rootfs_paths c us) ++ text ":")
    ++ ((path ++ c) ++ text "/overlay/delta")

-- The end of updateFullRootPath, behind the restart.
unfoldable pub restore : Text → Text → Bool → M Bool
restore c old true = pure true
restore c old false = do
  perform (lxc_set_config_item c rootfs_key old)
  perform (lxc_save_config c)
  give_up c

-- The part of updateFullRootPath that writes the configuration.
unfoldable pub write_config : Text → Text → Text → M Bool
write_config c old backend = do
  perform (lxc_clear_config c)
  loaded ← holds (lxc_load_config c)
  if not loaded then give_up c else (do
    perform (lxc_clear_config_item c rootfs_key)
    set ← holds (lxc_set_config_item c rootfs_key backend)
    if not set then give_up c else (do
      saved ← holds (lxc_save_config c)
      if not saved then give_up c else (restart_container c >>= restore c old)))

-- updateFullRootPath
unfoldable pub update_full_root_path : Units → Text → M Bool
update_full_root_path us c = do
  length ← number (lxc_get_config_item c)
  if is_negative length then pure false else (do
    a ← ask (lxc_get_config_item c)
    if is_zero a.number then pure false else (do
      path ← get_lxc_path
      write_config c (or_empty a.string) (rootfs_backend path c us)))

-- mount: the units of the container, and whether there is one.
unfoldable pub mount_units : Text → Units → M Bool
mount_units c [] = pure false
mount_units c ((k, du) ∷ us) =
    if text_eq du.exec_env_ref c
    then (do
      mount_squashfs (du.rootfs_path ++ text ".squashfs") du.rootfs_path
      mount_units c us
      pure true)
    else mount_units c us

-- `print` and `parse` are json-c's printer and parser of an array.
module _ (print : List Json → Text) (parse : Text → Option (List Json)) where
  -- saveCache
  unfoldable pub save_cache : Units → M Bool
  save_cache us = do
    fd ← number (open_path index_path (text "O_WRONLY|O_CREAT|O_TRUNC"))
    if is_minus_one fd then pure false else (do
      written ← number (write_fd fd (print (cache_of us)))
      perform (close_fd fd)
      pure (not (is_minus_one written)))

  unfoldable pub insert_all : List DeploymentUnit → Units → Units
  insert_all [] us = us
  insert_all (du ∷ dus) us = insert_all dus (insert_unit du.uuid du us)

  -- DeploymentUnitHelper(), which calls loadCache and ignores its answer; a text that is null, or an
  -- array that is missing, is a fault.
  unfoldable pub load_units : Conversions → List Json → M Units
  load_units o js = elim (units_of o js) [ none ↦ null_read | some dus ↦ pure (insert_all dus []) ]

  unfoldable pub load_cache : Conversions → M Units
  load_cache o = do
    opened ← holds (open_file index_path)
    if not opened then pure [] else (do
      a ← ask (read_file index_path)
      us ← elim (parse (or_empty a.string)) [ none ↦ pure [] | some js ↦ load_units o js ]
      perform (close_file index_path)
      pure us)

  -- removeDeploymentUnit: the units afterwards and the answer. It gives no container back.
  unfoldable pub remove_found : Text → DeploymentUnit → Units → M (Units × Bool)
  remove_found uuid du us = do
    there ← holds (lxc_container_new du.exec_env_ref)
    if not there then pure (us, false) else (do
      defined ← holds (lxc_is_defined du.exec_env_ref)
      if not defined then pure (us, false) else (do
        update_full_root_path us du.exec_env_ref
        du_remove du
        saved ← save_cache (erase_uuid uuid us)
        pure (erase_uuid uuid us, saved)))

  unfoldable pub remove_deployment_unit : Text → Units → M (Units × Bool)
  remove_deployment_unit uuid us = elim (find_uuid uuid us) [
    | none ↦ pure (us, false)
    | some du ↦ remove_found uuid du us
  ]

  -- The end of addDeploymentUnit, behind the installation.
  unfoldable pub register : Text → DeploymentUnit → Units → M (Units × DeploymentUnit)
  register env du us = do
    create_directories du.rootfs_path
    mount_squashfs (du.rootfs_path ++ text ".squashfs") du.rootfs_path
    let us' = insert_unit du.uuid du us
    saved ← save_cache us'
    if not saved
        then (do
          (us'', _) ← remove_deployment_unit du.uuid us'
          free_container env
          pure (us'', du))
        else (do
          updated ← update_full_root_path us' env
          if not updated
              then (do (us'', _) ← remove_deployment_unit du.uuid us'; pure (us'', du))
              else (do free_container env; pure (us', du)))

  -- addDeploymentUnit: the units afterwards and the unit that is answered, which is there whether
  -- or not it was installed.
  unfoldable pub add_prepared : Text → Units → DeploymentUnit × Bool → M (Units × DeploymentUnit)
  add_prepared env us (du, false) = free_container env >> pure (us, du)
  add_prepared env us (du, true) =
      if is_nil du.name
      then (free_container env >> pure (us, du))
      else elim (strstr du.name (text " ")) [
        | some i ↦ (free_container env >> pure (us, du))
        | none ↦ (do
          (du', ok) ← install du
          if not ok then (free_container env >> pure (us, du')) else register env du' us)
      ]

  unfoldable pub add_deployment_unit : Text → Text → Text → Units → M (Units × DeploymentUnit)
  add_deployment_unit env path uuid us = do
    there ← holds (lxc_container_new env)
    if not there then pure (us, new_unit uuid) else (do
      defined ← holds (lxc_is_defined env)
      if not defined
          then (free_container env >> pure (us, new_unit uuid))
          else (prepare (new_unit uuid) path env >>= add_prepared env us))
