-- ===== src/Container.antt =====
-- LxcContainer of include_priv/lxc-container.h and liblxcd/lxc-container.cpp.
pub mod Overlay
pub mod Lifecycle
use ymir_project.Base.{
  ℕ, zero, suc, ◌+◌, ◌-◌, ◌*◌, ◌%◌, ◌^◌, Bool, true, false, not, ◌&&◌, Option, none, some, List, [],
  ◌∷◌, ◌++◌, ◌==◌, ltb, if◌then◌else◌, take,
}
use ymir_project.StringClass.Split.{tokens}
use ymir_project.StringClass.{text_eq, strstr}
use ymir_project.Host.{
  ℤ, pos, negsuc, is_negative, is_zero, is_positive, is_minus_one, minus_one, Text, text, Answer, M,
  ◌>>=◌, ◌>>◌, pure, ask, number, holds, perform, string_of, exit_failure, null_read, when_,
  lxc_container_new, lxc_is_defined, lxc_is_running, lxc_start, lxc_createl, lxc_get_lxcpath,
  lxc_put, stat_path, is_directory, open_path, close_fd, ftruncate_fd, loop_get_free, loop_clear,
  loop_set, mount_fs, umount_path, make_dir, system_cmd, popen_cmd, proc_mounts,
}

-- enum class Method of include_priv/common-task.h, whose CREATE and DISABLE have one value.
pub data Method : Type 0 where
  disable enable reconfigure reset destroy idle : Method

-- `container` is the lxc_container: null, or the name that the structure holds.
pub record LxcContainer : Type 0 where
  pub use_overlay : Bool
  pub action : Method
  pub name : Text
  pub template : Text
  pub storage_space : ℤ
  pub memory : Text
  pub cpuset : Text
  pub cpupercent : Text
  pub container : Option Text

-- LxcContainer::LxcContainer
unfoldable pub new_container : Text → Text → Method → M LxcContainer
new_container name template action = do
  c ← holds (lxc_container_new name)
  pure (record {
    use_overlay = true;
    action = action;
    name = name;
    template = template;
    storage_space = pos 200;
    memory = text "20";
    cpuset = text "0-1";
    cpupercent = text "50";
    container = if c then some name else none;
  })

-- getLxcPath: the configured path with a slash, or the default without one.
unfoldable pub get_lxc_path : M Text
get_lxc_path = ask lxc_get_lxcpath >>= λ a. elim a.string [
  | none ↦ pure (text "/srv/lxc")
  | some p ↦ pure (p ++ text "/")
]

-- `int` times a constant, with the wrap-around of 32 bits.
unfoldable pub to_int32 : ℕ → ℤ
to_int32 n = let m = n % 2 ^ 32 in if ltb m (2 ^ 31) then pos m else negsuc (2 ^ 32 - 1 - m)

unfoldable pub mul_int32 : ℤ → ℕ → ℤ
mul_int32 (pos n) k = to_int32 (n * k)
mul_int32 (negsuc n) k = to_int32 (2 ^ 32 - (n + 1) * k % 2 ^ 32)

-- LxcContainer::createOverlayImage; the command is cut to its buffer of 128 bytes.
unfoldable pub create_overlay_image : LxcContainer → Text → M ℤ
create_overlay_image s img = do
  there ← number (stat_path img)
  if is_zero there then pure (pos 0) else (do
    fd ← number (open_path img (text "O_WRONLY|O_CREAT|O_TRUNC"))
    if is_minus_one fd then pure minus_one else (do
      cut ← number (ftruncate_fd fd (mul_int32 s.storage_space 1048576))
      if is_minus_one cut then (do perform (close_fd fd); pure minus_one) else (do
        done ← number (close_fd fd)
        if is_minus_one done then pure minus_one else (do
          code ← number (popen_cmd (take 127 (text "mkfs.ext4 -F " ++ img)))
          pure (if is_zero code then pos 0 else minus_one)))))

-- The cleanup label of mountOverlayFs: what is open is closed, the image first.
unfoldable pub mount_cleanup : (ctl loop image : Option ℤ) → Bool → M Bool
mount_cleanup ctl loop image ok = do
  elim image [ none ↦ pure tt | some fd ↦ perform (close_fd fd) ]
  elim loop [ none ↦ pure tt | some fd ↦ (do perform (loop_clear fd); perform (close_fd fd)) ]
  elim ctl [ none ↦ pure tt | some fd ↦ perform (close_fd fd) ]
  pure ok

-- LxcContainer::mountOverlayFs; `device` names the loop device of a number.
unfoldable pub mount_overlay_fs : (device : ℤ → Text) → Text → Text → M Bool
mount_overlay_fs device img dir = do
  mounted ← number (system_cmd (text "mountpoint -q " ++ dir))
  if is_zero mounted then pure true else (do
    ctl ← number (open_path (text "/dev/loop-control") (text "O_RDWR"))
    if is_negative ctl then mount_cleanup none none none false else (do
      n ← number (loop_get_free ctl)
      if is_negative n then mount_cleanup (some ctl) none none false else (do
        loop ← number (open_path (device n) (text "O_RDWR"))
        if is_negative loop then mount_cleanup (some ctl) none none false else (do
          image ← number (open_path img (text "O_RDWR"))
          if is_negative image then mount_cleanup (some ctl) (some loop) none false else (do
            bound ← number (loop_set loop image)
            if is_negative bound
                then mount_cleanup (some ctl) (some loop) (some image) false
                else (do
                  r ← number (mount_fs (device n) dir (text "ext4"))
                  mount_cleanup (some ctl) (some loop) (some image) (not (is_minus_one r))))))))

-- LxcContainer::makeDirectory
unfoldable pub make_directory : Text → M (Unit {0})
make_directory dir = do
  there ← number (stat_path dir)
  if is_zero there
      then (do d ← holds (is_directory dir); if d then pure tt else exit_failure)
      else (do r ← number (make_dir dir); if is_zero r then pure tt else exit_failure)

-- lxcd::isMountExist of include_priv/utils/linux.h: some mount point contains the text.
unfoldable pub any_contains : List Text → Text → Bool
any_contains [] t = false
any_contains (p ∷ ps) t =
    let rest = any_contains ps t in elim (strstr p t) [ some i ↦ true | none ↦ rest ]

unfoldable pub is_mount_exist : Text → M Bool
is_mount_exist t = ask proc_mounts >>= λ a. pure (any_contains a.texts t)

-- LxcContainer::setupOverlayFs, behind the read of the container's name `c`.
unfoldable pub setup_overlay_of : (device : ℤ → Text) → LxcContainer → (c path : Text) → M ℤ
setup_overlay_of device s c path = do
  let dir = (path ++ c) ++ text "/overlay"
  create_overlay_image s ((path ++ c) ++ text "/overlay.img")
  there ← is_mount_exist dir
  when_ (not there) (do
    ok ← mount_overlay_fs device ((path ++ c) ++ text "/overlay.img") dir
    when_ ok (make_directory (dir ++ text "/delta")))
  pure (pos 0)

-- LxcContainer::setupOverlayFs reads the name through the pointer to the container.
unfoldable pub setup_overlay_fs : (device : ℤ → Text) → LxcContainer → M ℤ
setup_overlay_fs device s = do
  path ← get_lxc_path
  elim s.container [ none ↦ null_read | some c ↦ setup_overlay_of device s c path ]

-- The branch of create for a template with arguments, "name:distro;release;arch".
unfoldable pub create_with_args : (device : ℤ → Text) → LxcContainer → Text → Text → List Text → M ℤ
create_with_args device s c template (distro ∷ release ∷ arch ∷ _) = do
  perform (
      lxc_createl c template (some (text "overlayfs"))
        (text "-d" ∷ distro ∷ text "-r" ∷ release ∷ text "-a" ∷ arch ∷ []))
  setup_overlay_fs device s
create_with_args device s c template _ = pure (pos 1)

-- The part of create after the check that the container is not defined yet.
unfoldable pub create_rootfs : (device : ℤ → Text) → LxcContainer → Text → List Text → M ℤ
create_rootfs device s c parts =
    if s.use_overlay
    then elim parts [
      | template ∷ args ∷ _ ↦ create_with_args device s c template (tokens b';' args)
      | template ∷ [] ↦ (do
        ok ← holds (lxc_createl c template (some (text "overlayfs")) [])
        if ok then setup_overlay_fs device s else pure (pos 1))
      | [] ↦ null_read
    ]
    else (do ok ← holds (lxc_createl c s.template none []); pure (if ok then pos 0 else pos 1))

-- The return code of create for the container `c`; `s` has `use_overlay` set.
unfoldable pub create_code : (device : ℤ → Text) → LxcContainer → Text → M ℤ
create_code device s c = do
  defined ← holds (lxc_is_defined c)
  if defined then pure (pos 0) else create_rootfs device s c (tokens b':' s.template)

abbrev pub with_code : LxcContainer → ℤ → M (LxcContainer × ℤ)
with_code s r = pure (s, r)

-- LxcContainer::create: the object, whose `use_overlay` it sets, and the return code.
unfoldable pub create : (device : ℤ → Text) → LxcContainer → M (LxcContainer × ℤ)
create device s =
    let s' = record s { use_overlay = is_positive s.storage_space } in
    elim s.container [ none ↦ null_read | some c ↦ create_code device s' c >>= with_code s' ]

-- LxcContainer::prepare; `refresh` is DeploymentUnitHelper's updateFullRootPath, which is ignored.
unfoldable pub prepare : (device : ℤ → Text) → (refresh : Text → M Bool) → LxcContainer → M ℤ
prepare device refresh s =
    if s.use_overlay && is_positive s.storage_space
    then elim s.container [
      | none ↦ null_read
      | some c ↦ (do r ← setup_overlay_fs device s; refresh c; pure r)
    ]
    else pure (pos 0)

-- LxcContainer::start
unfoldable pub start : LxcContainer → M ℤ
start s = elim s.container [
  | none ↦ pure minus_one
  | some c ↦ (do
    running ← holds (lxc_is_running c)
    if running
        then pure (pos 0)
        else (do ok ← holds (lxc_start c); pure (if ok then pos 0 else minus_one)))
]

-- LxcContainer::stop
unfoldable pub stop : LxcContainer → M ℤ
stop s = elim s.container [
  | none ↦ pure minus_one
  | some c ↦ (do perform (system_cmd (text "lxc-stop -k -n " ++ c)); pure (pos 0))
]

-- LxcContainer::reconfigure
unfoldable pub reconfigure_container : LxcContainer → M ℤ
reconfigure_container s = pure (pos 0)

-- LxcContainer::destroy, and its part behind the look-up of the path.
unfoldable pub unmount_and_destroy : (c path : Text) → M ℤ
unmount_and_destroy c path = do
  r ← number (umount_path ((path ++ c) ++ text "/overlay"))
  if is_minus_one r
      then exit_failure
      else (do perform (system_cmd (text "lxc-destroy -f -n " ++ c)); pure (pos 0))

unfoldable pub destroy_container : LxcContainer → M ℤ
destroy_container s = elim s.container [
  | none ↦ pure minus_one
  | some c ↦ get_lxc_path >>= unmount_and_destroy c
]

-- EXITIFFAIL: a code other than 0 ends the run.
abbrev pub go_on : M ℤ → ℤ → M ℤ
go_on k r = if is_zero r then k else pure r

infixl 5 ◌then_if_ok◌
abbrev pub ◌then_if_ok◌ : M ℤ → M ℤ → M ℤ
m then_if_ok k = m >>= go_on k

-- What run does with the object and the code of create.
unfoldable pub after_create :
    (device : ℤ → Text) → (refresh : Text → M Bool) → LxcContainer × ℤ → M ℤ
after_create device refresh (s, r) =
    if is_zero r then prepare device refresh s then_if_ok start s else pure r

-- create, prepare and start, as run chains them.
unfoldable pub bring_up : (device : ℤ → Text) → (refresh : Text → M Bool) → LxcContainer → M ℤ
bring_up device refresh s = create device s >>= after_create device refresh

-- LxcContainer::run, by the object's action.
unfoldable pub run_action :
    (device : ℤ → Text) → (refresh : Text → M Bool) → Method → LxcContainer → M ℤ
run_action device refresh enable s = bring_up device refresh s
run_action device refresh disable s = stop s
run_action device refresh reconfigure s =
    reconfigure_container s then_if_ok stop s then_if_ok start s
run_action device refresh reset s =
    stop s then_if_ok destroy_container s then_if_ok bring_up device refresh s
run_action device refresh destroy s = stop s then_if_ok destroy_container s
run_action device refresh idle s = pure (pos 0)

unfoldable pub run : (device : ℤ → Text) → (refresh : Text → M Bool) → LxcContainer → M ℤ
run device refresh s = run_action device refresh s.action s

-- LxcContainer::isRunning
unfoldable pub is_running : LxcContainer → M Bool
is_running s = elim s.container [ none ↦ pure false | some c ↦ holds (lxc_is_running c) ]

-- LxcContainer::~LxcContainer; giving back a null container does nothing.
unfoldable pub release : LxcContainer → M (Unit {0})
release s = elim s.container [ none ↦ pure tt | some c ↦ perform (lxc_put c) ]

-- The setters that the handlers call.
unfoldable pub set_template : Text → LxcContainer → LxcContainer
set_template t s = record s { template = t }

unfoldable pub set_storage_space : ℤ → LxcContainer → LxcContainer
set_storage_space n s = record s { storage_space = n }

unfoldable pub set_action : Method → LxcContainer → LxcContainer
set_action m s = record s { action = m }
