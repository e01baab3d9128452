-- ===== src/Units/Cache.antt =====
-- The cache of DeploymentUnitHelper: what saveCache writes of the units, and what loadCache reads,
-- as values of json-c. An access to what is not there is null.
pub mod RoundTrip
use ymir_project.Buffer.{◌>>=◌}
use ymir_project.Base.{
  ℕ, Option, none, some, Bool, true, false, List, [], ◌∷◌, ◌++◌, map, if◌then◌else◌,
}
use ymir_project.StringClass.{text_eq}
use ymir_project.Host.{ℤ, pos, Text, text}
use ymir_project.Units.{Service, DeploymentUnit}

mutual
  pub data Json : Type 0 where
    j_null : Json
    j_string : Text → Json
    j_number : ℤ → Json
    j_bool : Bool → Json
    j_array : Elements → Json
    j_object : Fields → Json

  pub data Elements : Type 0 where
    no_element : Elements
    element : Json → Elements → Elements

  pub data Fields : Type 0 where
    no_field : Fields
    field : Text → Json → Fields → Fields

abbrev pub elements : List Json → Elements
elements [] = no_element
elements (j ∷ js) = element j (elements js)

abbrev pub members : Elements → List Json
members no_element = []
members (element j js) = j ∷ members js

-- json_object_object_get, json_object_get_string and its kin, json_object_get_array
unfoldable pub lookup : Text → Fields → Json
lookup k no_field = j_null
lookup k (field l j fs) = let rest = lookup k fs in if text_eq l k then j else rest

abbrev pub object_get : Json → Text → Json
object_get (j_object fs) k = lookup k fs
object_get _ k = j_null

-- What json-c answers when a value of another type is read as a text, an int or a truth value.
pub record Conversions : Type 0 where
  pub shown : Json → Text
  pub to_int : Json → ℤ
  pub to_boolean : Json → Bool

-- json_object_get_string, whose answer for null is a null pointer.
unfoldable pub get_string : Conversions → Json → Option Text
get_string o j_null = none
get_string o (j_string t) = some t
get_string o j = some (o.shown j)

unfoldable pub get_int : Conversions → Json → ℤ
get_int o j_null = pos 0
get_int o (j_number n) = n
get_int o j = o.to_int j

unfoldable pub get_boolean : Conversions → Json → Bool
get_boolean o j_null = false
get_boolean o (j_bool b) = b
get_boolean o j = o.to_boolean j

-- The elements of an array; json_object_array_length asserts that it gets one.
unfoldable pub get_array : Json → Option (List Json)
get_array (j_array js) = some (members js)
get_array _ = none

-- A unit and its services as saveCache adds them.
unfoldable pub save_service : Service → Json
save_service s = j_object (
    field (text "Name") (j_string s.name) (
      field (text "Exec") (j_string s.exec) (
        field (text "Pidfile") (j_string s.pidfile)
          (field (text "Autostart") (j_bool s.autostart) no_field))))

unfoldable pub save_unit : DeploymentUnit → Json
save_unit du = j_object (
    field (text "UUID") (j_string du.uuid) (
      field (text "ExecutionEnvRef") (j_string du.exec_env_ref) (
        field (text "Description") (j_string du.description) (
          field (text "Vendor") (j_string du.vendor) (
            field (text "Version") (j_number du.version) (
              field (text "Name") (j_string du.name) (
                field (text "Type") (j_string du.type_) (
                  field (text "RootfsPath") (j_string du.rootfs_path) (
                    field (text "ipkPackages") (j_array (elements (map j_string du.ipk_packages))) (
                      field (text "InstallationDate") (j_number du.installation_date) (
                        field (text "Service")
                          (j_array (elements (map save_service du.executionunits)))
                          no_field)))))))))))

-- The array that saveCache writes: every unit once.
unfoldable pub cache_of : List (Text × DeploymentUnit) → List Json
cache_of [] = []
cache_of ((k, du) ∷ us) = save_unit du ∷ cache_of us

-- Every element is read, and a fault ends the reading.
unfoldable pub read_all : {A : Type 0} → (Json → Option A) → List Json → Option (List A)
read_all read [] = some []
read_all read (j ∷ js) = do a ← read j; more ← read_all read js; some (a ∷ more)

-- What loadCache makes of an element of the array. A text that is null is a fault: a string is built
-- from it.
unfoldable pub load_service : Conversions → Json → Option Service
load_service o j = do
  name ← get_string o (object_get j (text "Name"))
  exec ← get_string o (object_get j (text "Exec"))
  pidfile ← get_string o (object_get j (text "Pidfile"))
  some (record {
    name = name;
    exec = exec;
    pidfile = pidfile;
    autostart = get_boolean o (object_get j (text "Autostart"));
  })

-- The services of a unit, none if there is no such member.
unfoldable pub load_services : Conversions → Json → Option (List Service)
load_services o j_null = some []
load_services o j = do js ← get_array j; read_all (load_service o) js

unfoldable pub load_unit : Conversions → Json → Option DeploymentUnit
load_unit o j = do
  uuid ← get_string o (object_get j (text "UUID"))
  exec_env_ref ← get_string o (object_get j (text "ExecutionEnvRef"))
  description ← get_string o (object_get j (text "Description"))
  vendor ← get_string o (object_get j (text "Vendor"))
  name ← get_string o (object_get j (text "Name"))
  type_ ← get_string o (object_get j (text "Type"))
  rootfs_path ← get_string o (object_get j (text "RootfsPath"))
  packages ← get_array (object_get j (text "ipkPackages"))
  ipk_packages ← read_all (get_string o) packages
  executionunits ← load_services o (object_get j (text "Service"))
  some (record {
    uuid = uuid;
    exec_env_ref = exec_env_ref;
    description = description;
    vendor = vendor;
    type_ = type_;
    name = name;
    rootfs_path = rootfs_path;
    installation_date = get_int o (object_get j (text "InstallationDate"));
    executionunits = executionunits;
    version = get_int o (object_get j (text "Version"));
    ipk_packages = ipk_packages;
  })

unfoldable pub units_of : Conversions → List Json → Option (List DeploymentUnit)
units_of o js = read_all (load_unit o) js
