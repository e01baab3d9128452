-- ===== src/Examples/Daemon.antt =====
-- The theorems on deployment units and on the daemon's handlers at concrete objects and worlds.
use ymir_project.Base.{Option, List, ◌≡◌, refl, Bool, true, false, none, some, [], ◌∷◌}
use ymir_project.StringClass.{text_eq}
use ymir_project.Host.{ℤ, pos, Text, text, World, Trace, M, ◌>>=◌, pure, ret}
use ymir_project.Host.Laws.{Post, Returns}
use ymir_project.Units.{DeploymentUnit}
use ymir_project.Units.Helper.{add_prepared}
use ymir_project.Units.Helper.Answer.{add_prepared-name}
use ymir_project.Units.Cache.{Json, Conversions, cache_of, units_of}
use ymir_project.Units.Cache.RoundTrip.{units_of-cache_of}
use ymir_project.Units.Helper.{
  Units, insert_unit, find_uuid, erase_uuid, restart_container, restore,
}
use ymir_project.Units.Helper.Release.{Restored, restart-restore-Restored, erase_uuid-insert_unit}
use ymir_project.Amx.{process_exec_env, drive}
use ymir_project.Amx.Status.{UpStarted, process_exec_env-UpStarted, Acts, drive-Acts}

-- A unit with one service, and one without.
abbrev web : DeploymentUnit
web = record {
  uuid = 50 ∷ [];
  exec_env_ref = text "box";
  description = text "a web server";
  vendor = text "v";
  type_ = text "squashfs";
  name = text "web";
  rootfs_path = text "/opt/lxcd/deploymentunits/2";
  installation_date = pos 7;
  executionunits =
      record { name = text "httpd"; exec = text "/bin/httpd"; pidfile = text "p"; autostart = true }
      ∷ [];
  version = pos 3;
  ipk_packages = text "httpd" ∷ [];
}

abbrev bare : DeploymentUnit
bare = record web { uuid = 49 ∷ []; executionunits = [] }

abbrev installed : Units
installed = (49 ∷ [], bare) ∷ []

abbrev blank_conversions : Conversions
blank_conversions = record { shown = λ j. text "{}"; to_int = λ j. pos 0; to_boolean = λ j. false }

units_of-cache_of_example :
    units_of blank_conversions (cache_of ((49 ∷ [], bare) ∷ (50 ∷ [], web) ∷ []))
    ≡ some (bare ∷ web ∷ [])
units_of-cache_of_example =
    units_of-cache_of blank_conversions ((49 ∷ [], bare) ∷ (50 ∷ [], web) ∷ [])

web_absent : find_uuid web.uuid installed ≡ none
unfolding find_uuid text_eq
web_absent = refl

erase_uuid-insert_unit_example :
    (find_uuid web.uuid (insert_unit web.uuid web installed) ≡ some web)
    × (erase_uuid web.uuid (insert_unit web.uuid web installed) ≡ installed)
erase_uuid-insert_unit_example = erase_uuid-insert_unit web installed (refl, tt) web_absent

-- A world in which every call answers 1 and the text "box", and one in which it answers 0 and null.
abbrev boxes : World
boxes tr c = record { number = pos 1; string = some (text "box"); texts = [] }

abbrev nothing : World
nothing tr c = record { number = pos 0; string = none; texts = [] }

abbrev loop_device : ℤ → Text
loop_device n = text "/dev/loop0"

abbrev unchanged : Text → M Bool
unchanged c = pure true

restart-restore-Restored_example :
    Returns
      (Restored (text "box") (text "old") [])
      ((restart_container (text "box") >>= restore (text "box") (text "old")) nothing [])
restart-restore-Restored_example = restart-restore-Restored (text "box") (text "old") nothing []

process_exec_env-UpStarted_example :
    Post (UpStarted (text "box")) (process_exec_env loop_device unchanged (some 4) boxes [])
process_exec_env-UpStarted_example =
    process_exec_env-UpStarted loop_device unchanged 4 (text "box") boxes [] refl

drive-Acts_example :
    (t : Trace) × (drive (text "httpd") (text "Active") (text "/bin/httpd") nothing [] ≡ ret tt t)
    × Acts (text "httpd") (text "Active") (text "/bin/httpd") [] t
drive-Acts_example = drive-Acts (text "httpd") (text "Active") (text "/bin/httpd") nothing []

abbrev printed : List Json → Text
printed js = text "[]"

abbrev parsed : Text → Option (List Json)
parsed t = some []

add_prepared-name_example :
    Post
      (λ (p : Units × DeploymentUnit) t. p.1.name ≡ web.name)
      (add_prepared printed parsed (text "box") [] (web, true) boxes [])
add_prepared-name_example = add_prepared-name printed parsed (text "box") [] web true boxes []
