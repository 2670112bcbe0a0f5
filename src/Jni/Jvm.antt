-- ===== src/Jni/Jvm.antt =====
-- The Java virtual machine as jni/src/jniutils.c and jni/src/unbound4j_jinterface.c use it: a
-- parameter that tells what it returns, and the calls that have an effect.
use unbound4j.Base.{ℕ, Bool, Option, Bytes}

pub data JavaClass : Type 0 where
  no_class_def_found_error : JavaClass
  no_such_field_error : JavaClass
  runtime_exception : JavaClass
  out_of_memory_error : JavaClass
  completable_future : JavaClass
  unbound4j_config : JavaClass

pub data Method : Type 0 where
  constructor : Method
  complete : Method
  complete_exceptionally : Method
  is_use_system_resolver : Method
  get_unbound_config : Method
  get_request_timeout_seconds : Method

-- The message of an exception: a text, the name of a class, or an error of the library.
pub data Message : Type 0 where
  text : Bytes → Message
  class_name : JavaClass → Message
  library_error : Message

-- What `GetEnv` returns.
pub data EnvStatus : Type 0 where
  env_ok : EnvStatus
  env_detached : EnvStatus
  env_error : EnvStatus

-- `false` is NULL or an error.
pub record Jvm : Type 0 where
  pub get_env : EnvStatus
  pub attach : Bool
  pub find_class : JavaClass → Bool
  pub new_global_ref : Bool
  pub get_method : JavaClass → Method → Bool
  pub new_string : Bytes → Bool
  -- `GetStringUTFChars`
  pub get_string : Bytes → Bool
  pub new_object : JavaClass → Bool
  -- whether `complete` throws
  pub exception : Bool

pub data JniCall : Type 0 where
  throw_new : JavaClass → Message → JniCall
  -- the characters of a string, taken and given back
  took_string : JniCall
  released_string : JniCall
  -- the future, and whether there is an exception object: if not, NULL is passed while the exception
  -- that stands for the missing object is pending, and the future is not completed
  completed_exceptionally : ℕ → Bool → JniCall
  -- the future, whether no exception is pending behind the call, and the host name, `none` is NULL
  completed : ℕ → Bool → Option Bytes → JniCall
  detached : JniCall
  -- `free` of the callback context and of the host name
  freed_context : JniCall
  freed_result : JniCall
  logged : JniCall
