-- ===== src/Runtime/QueueHost/Tests.antt =====
-- The queue handlers at concrete calls.
use workflow_engine.Prelude.{
  ℕ, ◌≡◌, refl, sym, String, Option, none, some, List, [], ◌∷◌, keep, nat_eq, string_eq, arith,
  if◌then◌else◌, leb,
}
use Prim.Native.String.{len}
use workflow_engine.Runtime.QueueStore.{Json, QueueItem, check_put, put, workflow_depth}
use workflow_engine.Runtime.QueueHost.{Handlers, PutArgs, put_handler, get_handler, validated}
use workflow_engine.Runtime.QueueHost.Tenant.{
  HostCall, put_call, get_call, served, untouched, served-foreign,
}
use workflow_engine.Runtime.QueueHost.RoundTrip.{revalidated, getting, put_then_get}

abbrev plain : Json String
plain = record { stringify = λ v. some v; parse = λ s. some s }

-- A schema that takes texts of two letters at most.
abbrev short_text : String → Option String
short_text v = if leb (len v) 2 then some v else none

abbrev handlers : Handlers String
handlers = record {
  json = plain;
  max_depth = 5;
  owner = "o";
  workflow = "w";
  validators = ("jobs", short_text) ∷ [];
}

abbrev putting : String → String → PutArgs String
putting queue item = record {
  repo = "r";
  queue = queue;
  key = "k";
  item = item;
  invocation_id = "i";
  trigger_kind = "cron";
  trigger_name = "t";
}

abbrev row : ℕ → String → String → String → QueueItem
row n owner queue v = record {
  scope = record { owner = owner; repo = "r"; workflow = "w"; queue = queue };
  key = "k";
  seq = n;
  producer = record {
    enqueued_at = "now";
    invocation_id = "i";
    trigger_kind = "cron";
    trigger_name = "t";
  };
  item = v;
}

abbrev table : List QueueItem
table = row 1 "p" "jobs" "x" ∷ row 2 "o" "mails" "long text" ∷ []

put_test :
    (put_handler handlers (putting "jobs" "ab") "now" 3 table).0
    ≡ row 1 "p" "jobs" "x" ∷ row 2 "o" "mails" "long text" ∷ row 3 "o" "jobs" "ab" ∷ []
unfolding put_handler validated put check_put workflow_depth
put_test = refl

abbrev two_calls : List (HostCall String)
two_calls =
    put_call (putting "jobs" "ab") "now" 3 ∷ get_call (getting handlers (putting "mails" "")) ∷ []

served-foreign_example :
    keep (untouched handlers two_calls) (served handlers two_calls table)
    ≡ row 1 "p" "jobs" "x" ∷ []
served-foreign_example = served-foreign handlers two_calls table

put_then_get_example :
    (get_handler handlers
      (getting handlers (putting "jobs" "ab"))
      (put_handler handlers (putting "jobs" "ab") "now" 3 table).0).1
    ≡ revalidated handlers "jobs" "ab"
unfolding put_handler validated put check_put workflow_depth
put_then_get_example =
    put_then_get handlers (putting "jobs" "ab") "ab" "now" 3 1 table refl refl (λ text e. sym e)
      refl refl (omega arith)
