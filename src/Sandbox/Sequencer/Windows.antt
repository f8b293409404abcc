-- ===== src/Sandbox/Sequencer/Windows.antt =====
-- run-sequencer.ts: successive run windows, events outside a window, and the kind of a close that
-- `finish` makes up.
use Prim.Native.Char.{code}
use Prim.Native.String
use text.Mathlib.TextLemmas.{nil-append, cons-append}
use workflow_engine.Prelude.{
  ◌≡◌, ◌≢◌, refl, ap, sym, String, Option, List, [], ◌∷◌, nat_eq, ne_false, false, length, ltb, inl,
  inr, Bool-cases, ◌∙◌,
}
use workflow_engine.Sandbox.Sequencer.{
  Sequencer, WireEvent, start, next, finish, create_run_sequencer, before_dot, synth_close_kind,
}
use workflow_engine.Sandbox.Sequencer.Session.{
  run, session, next_open, next_shut, zeroed, start-zeroed,
}

module _ {V : Type 0} where
  next_zeroed : (s t : Sequencer) (w : WireEvent V) → next (start s).0 w ≡ next (start t).0 w
  next_zeroed s t w =
      rw (start-zeroed s, start-zeroed t)
        (rw
          (
            next_open (zeroed s.last_seen_ts s.last_seen_at) w refl,
            next_open (zeroed t.last_seen_ts t.last_seen_at) w refl,
          )
          refl)

  finish-start :
      (s : Sequencer) (reason : Option String) → (finish {V = V} (start s).0 reason).1 ≡ []
  unfolding finish
  finish-start s reason = rw (start-zeroed s) refl

  -- The events of a run window are the same whatever the sequencer went through before: no counter,
  -- open frame, call id or time stamp of an earlier run shows in a later one, not even after a run
  -- that was never finished.
  pub session_independent :
      (s t : Sequencer) (ws : List (WireEvent V)) (reason : Option String)
      → session s ws reason ≡ session t ws reason
  unfolding session run
  session_independent s t [] reason = finish-start s reason ∙ sym (finish-start t reason)
  session_independent s t (w ∷ ws) reason = rw (next_zeroed s t w) refl

  run_shut : (s : Sequencer) (ws : List (WireEvent V)) → s.run_active ≡ false → run s ws ≡ (s, [])
  unfolding run
  run_shut s [] h = refl
  run_shut s (w ∷ ws) h = rw (next_shut s w h) (rw (run_shut s ws h) refl)

module _ (V : Type 0) where
  finish_lem :
      (s : Sequencer) (reason : Option String) → (finish {V = V} s reason).0 ≡ create_run_sequencer
  unfolding finish
  finish_lem s reason = elim (Bool-cases (ltb 0 (length s.call_map))) [
    | inl e ↦ rw e refl
    | inr e ↦ rw e refl
  ]

module _ {V : Type 0} where
  -- After `finish`, with or without a reason, the sequencer is as it was created, and every wire
  -- event that arrives before the next `start` is dropped and changes nothing.
  pub finish_shuts :
      (s : Sequencer) (reason : Option String) (late : List (WireEvent V))
      → run (finish {V = V} s reason).0 late ≡ (create_run_sequencer, [])
  unfolding create_run_sequencer
  finish_shuts s reason late = rw (finish_lem V s reason) (run_shut create_run_sequencer late refl)

abbrev pub NoDot : String → Type 0
NoDot String.[] = Unit
NoDot (String.◌∷◌ c s) = (code c ≢ b'.') × NoDot s

before_dot-append :
    (p rest : String) → NoDot p → before_dot (String.◌++◌ p (String.◌++◌ "." rest)) ≡ p
unfolding before_dot
before_dot-append String.[] rest h = rw nil-append (rw cons-append refl)
before_dot-append (String.◌∷◌ c s) rest (d, h) =
    rw cons-append (rw (ne_false (code c) b'.' d) (ap (String.◌∷◌ c) (before_dot-append s rest h)))

-- The close that is made up for an open of kind `prefix.anything` has the kind `prefix.error`, where
-- the prefix has no dot.
pub synth_close_kind-dotted :
    (prefix rest : String)
    → NoDot prefix
    → synth_close_kind (String.◌++◌ prefix (String.◌++◌ "." rest)) ≡ String.◌++◌ prefix ".error"
unfolding synth_close_kind
synth_close_kind-dotted prefix rest h = rw (before_dot-append prefix rest h) refl
