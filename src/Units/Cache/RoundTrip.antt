-- ===== src/Units/Cache/RoundTrip.antt =====
-- What loadCache reads of what saveCache has written.
use ymir_project.Base.{some, ◌≡◌, refl, ap, List, [], ◌∷◌, map}
use ymir_project.StringClass.{text_eq}
use ymir_project.Host.{Text, text}
use ymir_project.Units.{Service, DeploymentUnit}
use ymir_project.Units.Cache.{
  Json, members, elements, j_string, get_string, lookup, save_service, load_service, save_unit,
  load_unit, cache_of, units_of, Conversions, read_all, get_int, get_boolean, get_array,
  load_services,
}

members-elements : (js : List Json) → members (elements js) ≡ js
members-elements [] = refl
members-elements (j ∷ js) = ap (◌∷◌ j) (members-elements js)

module _ (o : Conversions) where
  load-save_service : (s : Service) → load_service o (save_service s) ≡ some s
  unfolding load_service save_service lookup get_string get_boolean text_eq text
  load-save_service s = refl

  load-save_services :
      (ss : List Service) → read_all (load_service o) (map save_service ss) ≡ some ss
  unfolding read_all
  load-save_services [] = refl
  load-save_services (s ∷ ss) = rw (read_all, load-save_service s, load-save_services ss) refl

  load-save_packages : (ts : List Text) → read_all (get_string o) (map j_string ts) ≡ some ts
  unfolding read_all get_string
  load-save_packages [] = refl
  load-save_packages (t ∷ ts) = rw (read_all, load-save_packages ts) refl

  load-save_unit : (du : DeploymentUnit) → load_unit o (save_unit du) ≡ some du
  unfolding load_unit save_unit lookup get_string get_int get_array load_services text_eq text
  load-save_unit du =
      rw
        (
          members-elements (map save_service du.executionunits),
          members-elements (map j_string du.ipk_packages),
          load-save_services du.executionunits,
          load-save_packages du.ipk_packages,
        )
        refl

  read_all-cache_of :
      (us : List (Text × DeploymentUnit))
      → read_all (load_unit o) (cache_of us) ≡ some (map (λ u. u.1) us)
  unfolding cache_of read_all
  read_all-cache_of [] = refl
  read_all-cache_of ((k, du) ∷ us) = rw (read_all, load-save_unit du, read_all-cache_of us) refl

  -- What saveCache writes of the units, loadCache reads back: every unit once, in the order of the map
  -- and unchanged in every field, however json-c converts values of other types.
  pub units_of-cache_of :
      (us : List (Text × DeploymentUnit)) → units_of o (cache_of us) ≡ some (map (λ u. u.1) us)
  unfolding units_of
  units_of-cache_of us = read_all-cache_of us
