-- ===== src/Platform.antt =====
-- What the program calls and does not implement: errors, the file system and processes of the
-- machine, the work queue and the condition library that it vendors, the servers behind its REST
-- clients. Each is a field, and an operation that can change what lies outside the process takes
-- and returns that state.
pub mod Laws
pub mod Served
pub mod WorkQueue
pub mod Versions
pub mod Shared
pub use kubecon.Client.Objects.{ResourceClient}
pub use kubecon.Client.Result.{Result, ok, err, error_of, Result-cases}
use kubecon.Client.Clientset.{RestLibrary, ConfigOf}
use kubecon.Prelude.{String, Bool, Option, List}
use kubecon.Prelude.Exec.{Exec}
use kubecon.Api.{Cluster, Kubeconfig, Cond}

-- An `io.Reader`, by what each of its reads gives: bytes with an error, at which a loop over it
-- ends, or bytes and then the later reads. A read may give no bytes.
pub data Reader (E : Type 0) : Type 0 where
  stop : String → E → Reader E
  chunk : String → Reader E → Reader E

-- How a command fares: its pipe is refused, it does not start, or it starts, writes to the pipe,
-- and `Wait` returns.
pub data Execution (E : Type 0) : Type 0 where
  no_pipe : E → Execution E
  no_start : E → Execution E
  started : Reader E → Option E → Execution E

-- How `Run` of a command fares: it does not start, or it starts and ends with an error or none, and with
-- what it has written to its error output.
pub data Completion (E : Type 0) : Type 0 where
  unstarted : E → Completion E
  finished : Option E → String → Completion E

-- `Get` of a work queue: it blocks, it says that the queue is shut down and drained, or it takes
-- an item.
pub data Taken (Q : Type 0) : Type 0 where
  waiting : Taken Q
  quit : Taken Q
  item : String → Q → Taken Q

pub record Platform : Type 1 where
  -- Go errors: `fmt.Errorf` of a formatted text, `err.Error()`, and the tests and the constructor
  -- of k8s.io/apimachinery/pkg/api/errors
  pub Error : Type 0
  pub errorf : String → Error
  pub message : Error → String
  pub is_not_found : Error → Bool
  pub is_already_exists : Error → Bool
  pub new_not_found : String → String → Error
  -- everything outside the process
  pub Outside : Type 0
  pub read_file : String → Outside → Result Error String
  pub read_dir : String → Outside → Result Error (List String)
  -- `cmd.Run()`, and what the command wrote to its error output
  pub run : String → List String → Exec Outside (Completion Error)
  -- a command whose error output is read through a pipe
  pub exec : String → List String → Exec Outside (Execution Error)
  -- `fmt`'s `%v` of an `exec.Cmd`
  pub cmd_text : String → List String → String
  -- the API server, through the clientset
  pub clusters : ResourceClient Error Outside Cluster
  pub kubeconfigs : ResourceClient Error Outside Kubeconfig
  -- any cluster's API server: clientcmd.BuildConfigFromFlags, the library behind the clientset for
  -- its config, and Discovery().ServerVersion() with version.String()
  pub rest : RestLibrary Error
  pub build_config : String → Outside → Result Error (ConfigOf rest)
  pub server_version : rest.Discovery → Exec Outside (Result Error String)
  -- meta.Accessor
  pub accessor_error : Cluster → Option Error
  -- github.com/rancher/norman/condition: `IsTrue`, and what `Do` writes before and after it calls
  -- its function: `finished c before now e` for the object read at the start, the object that the
  -- function leaves, and the function's error
  pub is_true : Cond → Cluster → Bool
  pub starting : Cond → Cluster → Cluster
  pub finished : Cond → Cluster → Cluster → Option Error → Cluster
  -- k8s.io/client-go/util/workqueue, and cache.MetaNamespaceKeyFunc
  pub Queue : Type 0
  pub add : String → Queue → Queue
  pub get : Queue → Taken Queue
  pub done : String → Queue → Queue
  pub shut_down : Queue → Queue
  pub key_of : Cluster → Result Error String
