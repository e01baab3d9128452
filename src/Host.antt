-- ===== src/Host.antt =====
-- What the daemon's code asks of its surroundings: system calls, liblxc, the Ambiorix data model,
-- libcurl and json-c. A run is a function of the answers that a world gives, and keeps a trace of
-- the calls. Texts are byte lists, as the string component represents them.
pub mod Laws
use Prim.Native.Char.{code}
use Prim.Native.String.{String}
use ymir_project.Base.{
  ℕ, zero, suc, ◌+◌, ◌-◌, ◌*◌, ◌%◌, ◌^◌, Bool, true, false, not, ◌&&◌, Option, none, some, List, [],
  ◌∷◌, ◌++◌, ◌==◌, ltb, if◌then◌else◌,
}

-- `negsuc n` is -(n + 1).
pub data ℤ : Type 0 where
  pos : ℕ → ℤ
  negsuc : ℕ → ℤ

abbrev pub is_negative : ℤ → Bool
is_negative (pos n) = false
is_negative (negsuc n) = true

abbrev pub is_zero : ℤ → Bool
is_zero (pos n) = n == 0
is_zero (negsuc n) = false

-- 0 < z
abbrev pub is_positive : ℤ → Bool
is_positive (pos n) = ltb 0 n
is_positive (negsuc n) = false

abbrev pub minus_one : ℤ
minus_one = negsuc 0

abbrev pub is_minus_one : ℤ → Bool
is_minus_one (pos n) = false
is_minus_one (negsuc n) = n == 0

abbrev pub Text : Type 0
Text = List ℕ

abbrev pub codes : String → Text
codes String.[] = []
codes (String.◌∷◌ c s) = code c ∷ codes s

-- A literal of the source.
unfoldable pub text : String → Text
text s = codes s

-- The calls, with the arguments that matter. `object` numbers an object of the data model.
pub data Call : Type 0 where
  lxc_container_new : Text → Call
  lxc_is_defined lxc_is_running lxc_start lxc_stop : Text → Call
  lxc_createl : (name template : Text) (backend : Option Text) (args : List Text) → Call
  lxc_get_lxcpath : Call
  lxc_get_config_item lxc_clear_config lxc_load_config lxc_save_config lxc_put : Text → Call
  lxc_clear_config_item : (name key : Text) → Call
  lxc_set_config_item : (name key value : Text) → Call
  stat_path remove_path remove_tree : Text → Call
  is_directory : Text → Call
  open_path : (path mode : Text) → Call
  close_fd : ℤ → Call
  ftruncate_fd : (fd size : ℤ) → Call
  write_fd : (fd : ℤ) → Text → Call
  loop_get_free loop_clear : ℤ → Call
  loop_set : (loop image : ℤ) → Call
  mount_fs : (device target type : Text) → Call
  umount_path make_dir : Text → Call
  system_cmd popen_cmd : Text → Call
  proc_mounts : Call
  open_file close_file read_file list_dir : Text → Call
  write_file : (name contents : Text) → Call
  copy_file : (source target : Text) → Call
  time_now new_uuid curl_init : Call
  download : (url : Text) → Call
  json_parse : Text → Call
  json_string json_int json_bool : (object : ℕ) (key : Text) → Call
  json_services : Call
  get_param get_flag : (object : ℕ) (key : Text) → Call
  set_param : (object : ℕ) (key value : Text) → Call
  set_flag : (object : ℕ) (key : Text) (value : Bool) → Call
  set_number : (object : ℕ) (key : Text) (value : ℤ) → Call
  get_child : (object : ℕ) (key : Text) → Call
  add_instance emit_add : (object : ℕ) → Call
  get_arg : Text → Call
  read_param : Call
  start_thread : (service command : Text) → Call
  stop_process process_running : Text → Call
  attach_command : (name : Text) (argv : List Text) → Call
  -- what stands in the process number that attach was given
  attached_pid : (before : ℤ) → Call
  -- the exit status, or a negative number when the process did not exit
  wait_pid kill_pid : ℤ → Call
  create_thread : (command : Text) → Call
  callback : (code : ℤ) (output : Text) → Call
  read_int value_read : (fd : ℤ) → Call
  -- sysname, nodename, release and machine
  uname_query get_pid list_containers : Call
  container_state container_pid : (name : Text) → Call
  -- a function of the Ambiorix runtime, by its name, and its event loop
  runtime : (function : Text) → Call
  register_function : (name : Text) → Call
  event_loop : Call
  delete_object : (object : Text) → Call
  -- the size of a file, or -1
  file_size : (fd : ℤ) → Call
  send_file : (target source : ℤ) → (count : ℕ) → Call

-- An answer is read as a number, a truth value (not zero), a pointer (not zero), a text that may
-- be null, or a list of texts.
pub record Answer : Type 0 where
  pub number : ℤ
  pub string : Option Text
  pub texts : List Text

abbrev pub Trace : Type 0
Trace = List (Call × Answer)

-- The answer may depend on all earlier calls, newest first.
abbrev pub World : Type 0
World = Trace → Call → Answer

pub data Outcome (A : Type 0) : Type 0 where
  ret : A → Trace → Outcome A
  -- exit(EXIT_FAILURE), or an assertion that fails
  exited : Trace → Outcome A
  -- a null pointer is read, or an array is left
  fault : Trace → Outcome A

abbrev pub M : Type 0 → Type 0
M A = World → Trace → Outcome A

abbrev pub and_then : {A B : Type 0} → World → Outcome A → (A → M B) → Outcome B
and_then w (ret a tr) k = k a w tr
and_then w (exited tr) k = exited tr
and_then w (fault tr) k = fault tr

infixl 5 ◌>>=◌ ◌>>◌
abbrev pub ◌>>=◌ : {A B : Type 0} → M A → (A → M B) → M B
◌>>=◌ m k w tr = and_then w (m w tr) k

abbrev pub ◌>>◌ : {A B : Type 0} → M A → M B → M B
m >> n = m >>= λ _. n

abbrev pub pure : {A : Type 0} → A → M A
pure a w tr = ret a tr

abbrev pub ask : Call → M Answer
ask c w tr = ret (w tr c) ((c, w tr c) ∷ tr)

-- The call's number, its truth value, its effect alone, and its text.
abbrev pub number : Call → M ℤ
number c = ask c >>= λ a. pure a.number

abbrev pub holds : Call → M Bool
holds c = ask c >>= λ a. pure (not (is_zero a.number))

abbrev pub perform : Call → M (Unit {0})
perform c = ask c >>= λ a. pure tt

-- A null text is read as the empty one where the source builds a string from it by a default.
abbrev pub or_empty : Option Text → Text
or_empty none = []
or_empty (some t) = t

abbrev pub string_of : Call → M Text
string_of c = ask c >>= λ a. pure (or_empty a.string)

abbrev pub null_read : {A : Type 0} → M A
null_read w tr = fault tr

-- lxcd::string(const char*) reads through its argument.
abbrev pub text_or_null : Option Text → M Text
text_or_null none = null_read
text_or_null (some t) = pure t

abbrev pub cstring_of : Call → M Text
cstring_of c = ask c >>= λ a. text_or_null a.string

abbrev pub exit_failure : {A : Type 0} → M A
exit_failure w tr = exited tr

abbrev pub when_ : Bool → M (Unit {0}) → M (Unit {0})
when_ true m = m
when_ false m = pure tt
