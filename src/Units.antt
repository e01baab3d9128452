-- ===== src/Units.antt =====
-- DeploymentUnit of include_priv/deployment_unit.h and liblxcd/deployment_unit.cpp, and the helpers
-- of include_priv/utils/linux.h that it calls.
pub mod Helper
pub mod Cache
pub mod Files
use ymir_project.Base.{
  ℕ, zero, suc, ◌+◌, ◌-◌, Bool, true, false, not, ◌&&◌, ◌||◌, Option, none, some, List, [], ◌∷◌,
  ◌++◌, ◌==◌, if◌then◌else◌, length, take, drop,
}
use ymir_project.StringClass.{starts_with, strstr, text_eq}
use ymir_project.StringClass.Split.{tokens}
use ymir_project.Container.{is_mount_exist}
use ymir_project.Host.{
  ℤ, pos, negsuc, is_zero, is_positive, is_minus_one, Text, text, M, ◌>>=◌, ◌>>◌, pure, ask, number,
  holds, perform, or_empty, string_of, when_, make_dir, system_cmd, remove_path, remove_tree,
  open_file, close_file, read_file, write_file, copy_file, list_dir, time_now, curl_init, download,
  json_parse, json_string, json_int, json_bool, json_services,
}

-- DeploymentUnit::eu
pub record Service : Type 0 where
  pub name : Text
  pub exec : Text
  pub pidfile : Text
  pub autostart : Bool

pub record DeploymentUnit : Type 0 where
  pub uuid : Text
  pub exec_env_ref : Text
  pub description : Text
  pub vendor : Text
  pub type_ : Text
  pub name : Text
  pub rootfs_path : Text
  pub installation_date : ℤ
  pub executionunits : List Service
  pub version : ℤ
  pub ipk_packages : List Text

-- DeploymentUnit(uuid); the numbers are indeterminate in the source until prepare sets them.
unfoldable pub new_unit : Text → DeploymentUnit
new_unit uuid = record {
  uuid = uuid;
  exec_env_ref = [];
  description = [];
  vendor = [];
  type_ = [];
  name = [];
  rootfs_path = [];
  installation_date = pos 0;
  executionunits = [];
  version = pos 0;
  ipk_packages = [];
}

abbrev pub is_nil : Text → Bool
is_nil [] = true
is_nil (c ∷ t) = false

-- create_directories, and its loop over the parts of the path.
unfoldable pub make_parts : Text → List Text → M (Unit {0})
make_parts path [] = pure tt
make_parts path (part ∷ parts) =
    if is_nil part
    then make_parts path parts
    else (perform (make_dir (path ++ (part ++ text "/")))
        >> make_parts (path ++ (part ++ text "/")) parts)

unfoldable pub create_directories : Text → M (Unit {0})
create_directories [] = pure tt
create_directories (c ∷ path) =
    make_parts (if c == b'/' then text "/" else []) (tokens b'/' (c ∷ path))

unfoldable pub mount_squashfs : Text → Text → M (Unit {0})
mount_squashfs path mount_point = do
  there ← is_mount_exist mount_point
  when_ (not there)
      (perform (system_cmd (((text "mount -t squashfs " ++ path) ++ text " ") ++ mount_point)))

unfoldable pub umount_squashfs : Text → M (Unit {0})
umount_squashfs mount_point =
    perform (system_cmd ((text "umount -f " ++ mount_point) ++ text " 2> /dev/null"))

-- string::rfind, from the last place downwards.
unfoldable pub rfind_loop : ℕ → Text → Text → Option ℕ
rfind_loop zero t u = if starts_with u t then some 0 else none
rfind_loop (suc n) t u =
    let earlier = rfind_loop n t u in
    if starts_with u (drop (suc n) t) then some (suc n) else earlier

unfoldable pub rfind : Text → Text → Option ℕ
rfind t u = rfind_loop (length t) t u

-- The place of a suffix ".ipk".
unfoldable pub ipk_suffix : Text → Option ℕ
ipk_suffix file = elim (rfind file (text ".ipk")) [
  | none ↦ none
  | some i ↦ if length file - i == 4 then some i else none
]

abbrev pub temp_dir : Text
temp_dir = text "/tmp/tr157-du"

-- JsonHelper::GetString and its kin: a default for what is not there.
unfoldable pub load_services : (count next : ℕ) → M (List Service)
load_services zero j = pure []
load_services (suc n) j = do
  name ← string_of (json_string (suc j) (text "Name"))
  exec ← string_of (json_string (suc j) (text "Exec"))
  pidfile ← string_of (json_string (suc j) (text "Pidfile"))
  autostart ← holds (json_bool (suc j) (text "Autostart"))
  rest ← load_services n (suc j)
  pure (record { name = name; exec = exec; pidfile = pidfile; autostart = autostart } ∷ rest)

abbrev pub count_of : ℤ → ℕ
count_of (pos n) = n
count_of (negsuc n) = 0

-- The end of prepare: the fields from the metadata, object 0, and its services, objects 1 to n; a
-- negative number of services stands for an attribute that is not an array.
unfoldable pub load_metadata : DeploymentUnit → Text → M DeploymentUnit
load_metadata du env = do
  description ← string_of (json_string 0 (text "Description"))
  vendor ← string_of (json_string 0 (text "Vendor"))
  version ← number (json_int 0 (text "Version"))
  type_ ← string_of (json_string 0 (text "Type"))
  name ← string_of (json_string 0 (text "Name"))
  n ← number json_services
  services ← load_services (count_of n) 0
  pure (record du {
    rootfs_path = text "/opt/lxcd/deploymentunits/" ++ du.uuid;
    exec_env_ref = env;
    description = description;
    vendor = vendor;
    version = version;
    type_ = type_;
    name = name;
    executionunits = du.executionunits ++ services;
  })

-- The middle of prepare: the archive is unpacked and its metadata.json is read.
unfoldable pub unpack : DeploymentUnit → Text → Text → M (DeploymentUnit × Bool)
unpack du path env = do
  create_directories temp_dir
  result ← number (system_cmd (((text "tar -C " ++ temp_dir) ++ text " -xzf ") ++ path))
  if not (is_zero result) then pure (du, false) else (do
    opened ← holds (open_file (temp_dir ++ text "/metadata.json"))
    if not opened then pure (du, false) else (do
      a ← ask (read_file (temp_dir ++ text "/metadata.json"))
      if is_zero a.number
          then (do perform (close_file (temp_dir ++ text "/metadata.json")); pure (du, false))
          else (do
            parsed ← holds (json_parse (or_empty a.string))
            perform (close_file (temp_dir ++ text "/metadata.json"))
            if not parsed
                then pure (du, false)
                else (do du' ← load_metadata du env; pure (du', true)))))

abbrev pub at_start : Option ℕ → Bool
at_start none = false
at_start (some i) = i == 0

abbrev pub tarball : Text
tarball = text "downloaded_tarball.tar.gz"

-- The start of prepare: the downloaded file, no name if nothing was to be downloaded, or failure.
unfoldable pub fetch : Text → M (Option Text)
fetch path =
    if at_start (strstr path (text "http://")) || at_start (strstr path (text "https://"))
    then (do
      curl ← holds curl_init
      if not curl then pure (some []) else (do
        a ← ask (download path)
        if not (is_zero a.number) then pure none else (do
          opened ← holds (open_file tarball)
          if not opened then pure none else (do
            written ← number (write_file tarball (or_empty a.string))
            perform (close_file tarball)
            pure (if count_of written == length (or_empty a.string) then some tarball else none)))))
    else pure (some [])

-- DeploymentUnit::prepare: the unit afterwards, and the answer.
unfoldable pub prepare : DeploymentUnit → Text → Text → M (DeploymentUnit × Bool)
prepare du path env = do
  now ← number time_now
  file ← fetch path
  elim file [
    | none ↦ pure (record du { installation_date = now }, false)
    | some f ↦ unpack (record du { installation_date = now }) (if is_nil f then path else f) env
  ]

-- The loop of install over the files of the temporary directory: the packages, or failure.
unfoldable pub install_packages : Text → List Text → M (List Text × Bool)
install_packages root [] = pure ([], true)
install_packages root (file ∷ files) = elim (ipk_suffix file) [
  | none ↦ install_packages root files
  | some i ↦ (do
    result ← number (
        system_cmd (
          ((text
                "opkg install --force-depends --force-overwrite --force-postinstall --force-space -d "
              ++ root)
            ++ text " ")
          ++ ((temp_dir ++ text "/") ++ file)))
    if not (is_zero result)
        then pure ([], false)
        else (do (packages, ok) ← install_packages root files; pure (take i file ∷ packages, ok)))
]

-- DeploymentUnit::install; a package that fails ends it before the temporary directory is removed.
unfoldable pub install : DeploymentUnit → M (DeploymentUnit × Bool)
install du = do
  create_directories du.rootfs_path
  if text_eq du.type_ (text "squashfs")
      then (do
        perform
            (copy_file (temp_dir ++ text "/rootfs.squashfs") (du.rootfs_path ++ text ".squashfs"))
        perform (remove_tree temp_dir)
        pure (du, true))
      else if text_eq du.type_ (text "ipk")
      then (do
        a ← ask (list_dir temp_dir)
        if is_zero a.number then (do perform (remove_tree temp_dir); pure (du, true)) else (do
          (packages, ok) ← install_packages du.rootfs_path a.texts
          when_ ok (perform (remove_tree temp_dir))
          pure (record du { ipk_packages = packages }, ok)))
      else (do perform (remove_tree temp_dir); pure (du, true))

-- DeploymentUnit::duRemove
unfoldable pub du_remove : DeploymentUnit → M Bool
du_remove du =
    if text_eq du.type_ (text "squashfs")
    then (do
      umount_squashfs du.rootfs_path
      perform (remove_tree du.rootfs_path)
      perform (remove_path (du.rootfs_path ++ text ".squashfs"))
      pure true)
    else pure true
