-- ===== src/Examples/Containers.antt =====
-- The theorems on LxcContainer in worlds where the calls answer 1 and no text.
use ymir_project.Base.{refl, inl, Bool, true, some, none, []}
use ymir_project.Host.{ℤ, pos, Text, text, World, M, pure, stat_path}
use ymir_project.Host.Laws.{Post}
use ymir_project.Container.{LxcContainer, enable, destroy, run, run_action, mount_overlay_fs}
use ymir_project.Container.Lifecycle.{UpIfZero, DestroyOutcome, run-UpIfZero, run-DestroyOutcome}
use ymir_project.Container.Overlay.{Balanced, mount_overlay_fs-Balanced}

abbrev ones : World
ones tr c = record { number = pos 1; string = none; texts = [] }

abbrev zeroes : World
zeroes tr c = record { number = pos 0; string = none; texts = [] }

-- A world where the directories are there and every other call answers 1. Enabling the container
-- answers 0 in it.
abbrev prepared : World
prepared tr (stat_path p) = record { number = pos 0; string = none; texts = [] }
prepared tr c = record { number = pos 1; string = none; texts = [] }

abbrev device : ℤ → Text
device n = text "/dev/loop0"

abbrev refresh : Text → M Bool
refresh c = pure true

abbrev box : LxcContainer
box = record {
  use_overlay = true;
  action = enable;
  name = text "box";
  template = text "download:debian;bookworm;amd64";
  storage_space = pos 100;
  memory = text "20";
  cpuset = text "0-1";
  cpupercent = text "50";
  container = some (text "box");
}

run-UpIfZero_example : Post (UpIfZero (text "box")) (run device refresh box prepared [])
run-UpIfZero_example = run-UpIfZero device refresh box (text "box") prepared [] refl (inl refl)

run-DestroyOutcome_example :
    DestroyOutcome (text "box") [] (run_action device refresh destroy box ones [])
run-DestroyOutcome_example = run-DestroyOutcome device refresh box (text "box") ones [] refl

abbrev nowhere : LxcContainer
nowhere = record box { container = none }

mount_overlay_fs-Balanced_example : Balanced [] (
    mount_overlay_fs device (text "/srv/lxc/box/overlay.img") (text "/srv/lxc/box/overlay") ones [])
mount_overlay_fs-Balanced_example =
    mount_overlay_fs-Balanced device (text "/srv/lxc/box/overlay.img") (text "/srv/lxc/box/overlay")
      ones []
