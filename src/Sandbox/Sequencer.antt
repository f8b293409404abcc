-- ===== src/Sandbox/Sequencer.antt =====
-- packages/sandbox/src/run-sequencer.ts, and the wire events of protocol.ts. The closure's variables
-- are the record `Sequencer`; each method returns the new state, its result and what it logs.
pub mod Stack
pub mod Session
pub mod Frames
pub mod Windows
mod Tests
pub mod Balance
use Prim.Native.Char.{code}
use Prim.Native.String
use mathlib.Core.List.{reverse}
use workflow_engine.Core.{SandboxEvent, InvocationEventError}
use workflow_engine.Prelude.{
  ℕ, ◌+◌, String, Bool, true, false, not, ◌||◌, Option, none, some, List, [], ◌∷◌, map, ltb, ◌==◌,
  nat_eq, length, last?, snoc, if◌then◌else◌,
}
use workflow_engine.Prelude.Maps.{get, set, delete}

pub data WireFraming : Type 0 where
  leaf : WireFraming
  open_frame close_frame : ℕ → WireFraming

pub record WireEvent (V : Type 0) : Type 0 where
  pub kind : String
  pub name : String
  pub ts : ℕ
  pub at : String
  pub input : Option V
  pub output : Option V
  pub error : Option (InvocationEventError V)
  pub framing : WireFraming

pub record CallMapEntry : Type 0 where
  pub open_seq : ℕ
  pub name : String
  pub kind : String
  pub close_kind : String

pub record Sequencer : Type 0 where
  pub seq : ℕ
  pub ref_stack : List ℕ
  pub call_map : List (ℕ × CallMapEntry)
  pub run_active : Bool
  pub last_seen_ts : ℕ
  pub last_seen_at : String

pub data Warning : Type 0 where
  dirty_start : ℕ → ℕ → ℕ → Warning
  event_outside_run : String → String → String → Warning
  close_without_open : String → String → ℕ → Warning
  dangling_frame : ℕ → List String → Warning

-- `openKind.slice(0, openKind.indexOf("."))`, and the whole text where there is no dot.
pub before_dot : String → String
before_dot String.[] = ""
before_dot (String.◌∷◌ c s) = if code c == b'.' then "" else String.◌∷◌ c (before_dot s)

pub synth_close_kind : String → String
synth_close_kind open_kind = String.◌++◌ (before_dot open_kind) ".error"

pub create_run_sequencer : Sequencer
create_run_sequencer = record {
  seq = 0;
  ref_stack = [];
  call_map = [];
  run_active = false;
  last_seen_ts = 0;
  last_seen_at = "";
}

-- `array.pop()`.
pub pop : List ℕ → List ℕ
pop [] = []
pop (x ∷ []) = []
pop (x ∷ y ∷ ys) = x ∷ pop (y ∷ ys)

-- Whether `lastIndexOf` finds `n`.
pub contains : ℕ → List ℕ → Bool
contains n [] = false
contains n (x ∷ xs) = x == n || contains n xs

-- `splice(lastIndexOf(n), 1)`, and no change where `lastIndexOf` gives -1.
pub splice_last : ℕ → List ℕ → List ℕ
splice_last n [] = []
splice_last n (x ∷ xs) =
    if contains n xs then x ∷ splice_last n xs else if x == n then xs else x ∷ xs

abbrev is_dirty : Sequencer → Bool
is_dirty s = not (s.seq == 0) || ltb 0 (length s.ref_stack) || ltb 0 (length s.call_map)

pub start : Sequencer → Sequencer × List Warning
start s =
    if is_dirty s
    then (
      record s { seq = 0; ref_stack = []; call_map = []; run_active = true },
      dirty_start s.seq (length s.ref_stack) (length s.call_map) ∷ [],
    )
    else (record s { run_active = true }, [])

-- The top of the stack is popped; a frame below it, closed out of order, is spliced out.
pub drop_frame : ℕ → List ℕ → List ℕ
drop_frame open_seq stack = elim (last? stack) [
  | none ↦ splice_last open_seq stack
  | some top ↦ if top == open_seq then pop stack else splice_last open_seq stack
]

abbrev pub entries_of : List (ℕ × CallMapEntry) → List CallMapEntry
entries_of = map (λ p. p.1)

-- What `next` gives: the new state, the event unless it is dropped, and what is logged.
abbrev pub Next : Type 0 → Type 0
Next V = Sequencer × Option (SandboxEvent V) × List Warning

module _ {V : Type 0} where
  pub build_sandbox_event : WireEvent V → ℕ → Option ℕ → SandboxEvent V
  build_sandbox_event wire assigned_seq ref = record {
    kind = wire.kind;
    seq = assigned_seq;
    ref = ref;
    at = wire.at;
    ts = wire.ts;
    name = wire.name;
    input = wire.input;
    output = wire.output;
    error = wire.error;
  }

  pub handle_close : Sequencer → WireEvent V → ℕ → Next V
  handle_close s wire call_id = elim (get call_id s.call_map) [
    | none ↦ (s, none, close_without_open wire.kind wire.name call_id ∷ [])
    | some entry ↦ (
      record s {
        seq = s.seq + 1;
        ref_stack = drop_frame entry.open_seq s.ref_stack;
        call_map = delete call_id s.call_map;
      },
      some (build_sandbox_event wire s.seq (some entry.open_seq)),
      [],
    )
  ]

  abbrev pub entry_of : Sequencer → WireEvent V → CallMapEntry
  entry_of s wire = record {
    open_seq = s.seq;
    name = wire.name;
    kind = wire.kind;
    close_kind = synth_close_kind wire.kind;
  }

  -- The part of `next` behind the window's test, by the wire event's `type`.
  pub frame : Sequencer → WireEvent V → WireFraming → Next V
  frame s wire leaf =
      (record s { seq = s.seq + 1 }, some (build_sandbox_event wire s.seq (last? s.ref_stack)), [])
  frame s wire (open_frame call_id) = (
    record s {
      seq = s.seq + 1;
      ref_stack = snoc s.ref_stack s.seq;
      call_map = set call_id (entry_of s wire) s.call_map;
    },
    some (build_sandbox_event wire s.seq (last? s.ref_stack)),
    [],
  )
  frame s wire (close_frame call_id) = handle_close s wire call_id

  abbrev pub seen : Sequencer → WireEvent V → Sequencer
  seen s wire = record s { last_seen_ts = wire.ts; last_seen_at = wire.at }

  pub next : Sequencer → WireEvent V → Next V
  next s wire =
      if not s.run_active
      then (s, none, event_outside_run wire.kind wire.name wire.at ∷ [])
      else frame (seen s wire) wire wire.framing

  pub synth_event : Sequencer → String → ℕ → CallMapEntry → SandboxEvent V
  synth_event s reason assigned_seq entry = record {
    kind = entry.close_kind;
    seq = assigned_seq;
    ref = some entry.open_seq;
    at = s.last_seen_at;
    ts = s.last_seen_ts;
    name = entry.name;
    input = none;
    output = none;
    error = some (record { message = reason; stack = none; issues = none; kind = none });
  }

  -- The loop of `finish` over the entries, the innermost first.
  pub synthesise : Sequencer → String → ℕ → List CallMapEntry → List (SandboxEvent V)
  synthesise s reason n [] = []
  synthesise s reason n (entry ∷ entries) =
      synth_event s reason n entry ∷ synthesise s reason (n + 1) entries

  abbrev pub close_events : Sequencer → Option String → List (SandboxEvent V) × List Warning
  close_events s none =
      ([], dangling_frame (length s.call_map) (map (λ e. e.kind) (entries_of s.call_map)) ∷ [])
  close_events s (some reason) = (synthesise s reason s.seq (reverse (entries_of s.call_map)), [])

  pub finish : Sequencer → Option String → Sequencer × List (SandboxEvent V) × List Warning
  finish s reason =
      if ltb 0 (length s.call_map)
      then (create_run_sequencer, (close_events s reason).0, (close_events s reason).1)
      else (create_run_sequencer, [], [])
