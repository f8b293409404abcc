-- ===== src/Core.antt =====
-- packages/core/src/index.ts: the events that the sandbox emits and the runtime stores. A value of
-- type `unknown` is an element of the parameter `V`; an absent field is `none`.
use workflow_engine.Prelude.{ℕ, String, Option}

pub data ErrorKind : Type 0 where
  shutdown : ErrorKind

pub record InvocationEventError (V : Type 0) : Type 0 where
  pub message : String
  pub stack : Option String
  pub issues : Option V
  pub kind : Option ErrorKind

pub record SandboxEvent (V : Type 0) : Type 0 where
  pub kind : String
  pub seq : ℕ
  pub ref : Option ℕ
  pub at : String
  pub ts : ℕ
  pub name : String
  pub input : Option V
  pub output : Option V
  pub error : Option (InvocationEventError V)

pub data DispatchSource : Type 0 where
  trigger manual upload ws : DispatchSource

pub record DispatchUser : Type 0 where
  pub login : String
  pub mail : String

pub record DispatchMeta : Type 0 where
  pub source : DispatchSource
  pub user : Option DispatchUser

-- A `SandboxEvent` widened by the runtime.
pub record InvocationEvent (V : Type 0) : Type 0 where
  pub event : SandboxEvent V
  pub open event use *
  pub id : String
  pub owner : String
  pub repo : String
  pub workflow : String
  pub workflow_sha : String
  pub dispatch : Option DispatchMeta
