-- ===== src/SharedPtr/Mapped.antt =====
-- MmapSharedPtr when mmap fails.
use ymir_project.Base.{◌≡◌, refl, none, length, false}
use ymir_project.SharedPtr.{Store, reset, value_at, construct_mapped}
use ymir_project.SharedPtr.Counters.{get_elem?-past}

-- When mmap fails, the destructor of the base class reads the counter that was just deleted,
-- whatever else the program holds.
pub construct_mapped-failed : (st : Store) → construct_mapped false st ≡ none
unfolding construct_mapped reset value_at
construct_mapped-failed st = rw (get_elem?-past st.counts none (length st.counts) refl) refl
