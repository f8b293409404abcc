-- ===== src/Sandbox/Sequencer/Session.antt =====
-- run-sequencer.ts as sandbox.ts drives it: `start`, `next` for each wire event, `finish`. The
-- numbers of the events.
use mathlib.Core.List.{reverse}
use workflow_engine.Core.{SandboxEvent}
use workflow_engine.Prelude.{
  ℕ, ◌+◌, ◌≡◌, refl, String, true, false, Option, none, some, List, [], ◌∷◌, ◌++◌, arith, length,
  inl, inr, Option-cases, subst, nat_eq, Bool-cases, ltb,
}
use workflow_engine.Prelude.Maps.{get}
use workflow_engine.Sandbox.Sequencer.{
  Sequencer, WireEvent, WireFraming, leaf, open_frame, close_frame, CallMapEntry, start, frame,
  next, handle_close, finish, synthesise, synth_event, build_sandbox_event, seen, entries_of,
  event_outside_run,
}

-- `start` leaves a state that is zero but for the last-seen stamp.
abbrev pub zeroed : ℕ → String → Sequencer
zeroed ts at = record {
  seq = 0;
  ref_stack = [];
  call_map = [];
  run_active = true;
  last_seen_ts = ts;
  last_seen_at = at;
}

pub start-zeroed : (s : Sequencer) → (start s).0 ≡ zeroed s.last_seen_ts s.last_seen_at
unfolding start
start-zeroed s = ground arith

module _ {V : Type 0} where
  abbrev pub with_event : Option (SandboxEvent V) → List (SandboxEvent V) → List (SandboxEvent V)
  with_event none es = es
  with_event (some e) es = e ∷ es

  -- The state after the wire events, and the events that are forwarded.
  unfoldable pub run : Sequencer → List (WireEvent V) → Sequencer × List (SandboxEvent V)
  run s [] = (s, [])
  run s (w ∷ ws) = let rest = run (next s w).0 ws in (rest.0, with_event (next s w).1 rest.1)

  -- Every event of a run window.
  unfoldable pub session : Sequencer → List (WireEvent V) → Option String → List (SandboxEvent V)
  session s ws reason = let r = run (start s).0 ws in r.1 ++ (finish {V = V} r.0 reason).1

  -- The events are numbered `n`, `n + 1`, and so on.
  abbrev pub Numbered : ℕ → List (SandboxEvent V) → Type 0
  Numbered n [] = Unit
  Numbered n (e ∷ es) = (e.seq ≡ n) × Numbered (n + 1) es

  Numbered-append :
      (n k : ℕ) (xs ys : List (SandboxEvent V))
      → Numbered n xs
      → k ≡ n + length xs
      → Numbered k ys
      → Numbered n (xs ++ ys)
  Numbered-append n k [] ys h e g = subst (λ m. Numbered m ys) (let q : k ≡ n = omega arith in q) g
  Numbered-append n k (x ∷ xs) ys (p, h) e g =
      (p, Numbered-append (n + 1) k xs ys h (omega arith) g)

  -- What `next` does to the counter and the window while the window is open.
  abbrev Counted : Sequencer → Sequencer → Option (SandboxEvent V) → Type 0
  Counted s t none = (t.seq ≡ s.seq) × (t.run_active ≡ true)
  Counted s t (some e) = (e.seq ≡ s.seq) × (t.seq ≡ s.seq + 1) × (t.run_active ≡ true)

  pub next_open :
      (s : Sequencer) (w : WireEvent V)
      → s.run_active ≡ true
      → next s w ≡ frame (seen s w) w w.framing
  unfolding next
  next_open s w h = simp h

  pub next_shut :
      (s : Sequencer) (w : WireEvent V)
      → s.run_active ≡ false
      → next s w ≡ (s, none, event_outside_run w.kind w.name w.at ∷ [])
  unfolding next
  next_shut s w h = simp h

  frame-Counted :
      (s : Sequencer) (w : WireEvent V) (f : WireFraming)
      → s.run_active ≡ true
      → Counted s (frame s w f).0 (frame s w f).1
  unfolding frame handle_close build_sandbox_event
  frame-Counted s w leaf h = ground arith
  frame-Counted s w (open_frame id) h = ground arith
  frame-Counted s w (close_frame id) h = elim (Option-cases (get id s.call_map)) [
    | inl e ↦ rw (e, frame, handle_close) (ground arith)
    | inr (c, e) ↦ rw (e, frame, handle_close) (ground arith)
  ]

  next-Counted :
      (s : Sequencer) (w : WireEvent V) → s.run_active ≡ true → Counted s (next s w).0 (next s w).1
  next-Counted s w h = rw (next_open s w h) (frame-Counted (seen s w) w w.framing h)

  Counted-active :
      (s t : Sequencer) (o : Option (SandboxEvent V)) → Counted s t o → t.run_active ≡ true
  Counted-active s t none c = c.1
  Counted-active s t (some e) c = c.2

  Numbered-step :
      (s t : Sequencer) (o : Option (SandboxEvent V)) (es : List (SandboxEvent V)) (k : ℕ)
      → Counted s t o
      → Numbered t.seq es × (k ≡ t.seq + length es)
      → Numbered s.seq (with_event o es) × (k ≡ s.seq + length (with_event o es))
  Numbered-step s t none es k c (h, e) = (subst (λ m. Numbered m es) c.0 h, omega arith)
  Numbered-step s t (some x) es k c (h, e) = ((c.0, subst (λ m. Numbered m es) c.1 h), omega arith)

  run-Numbered :
      (s : Sequencer) (ws : List (WireEvent V))
      → s.run_active ≡ true
      → Numbered s.seq (run s ws).1 × ((run s ws).0.seq ≡ s.seq + length (run s ws).1)
  unfolding run
  run-Numbered s [] h = (tt, omega arith)
  run-Numbered s (w ∷ ws) h =
      let c = next-Counted s w h in
      Numbered-step s (next s w).0 (next s w).1 (run (next s w).0 ws).1 (run (next s w).0 ws).0.seq
        c (run-Numbered (next s w).0 ws (Counted-active s (next s w).0 (next s w).1 c))

module _ (V : Type 0) where
  synthesise-Numbered :
      (s : Sequencer) (reason : String) (n : ℕ) (es : List CallMapEntry)
      → Numbered n (synthesise {V = V} s reason n es)
  unfolding synthesise synth_event
  synthesise-Numbered s reason n [] = tt
  synthesise-Numbered s reason n (e ∷ es) = (refl, synthesise-Numbered s reason (n + 1) es)

  finish-Numbered :
      (s : Sequencer) (reason : Option String) → Numbered s.seq (finish {V = V} s reason).1
  unfolding finish
  finish-Numbered s none = elim (Bool-cases (ltb 0 (length s.call_map))) [
    | inl e ↦ rw e tt
    | inr e ↦ rw e tt
  ]
  finish-Numbered s (some reason) = elim (Bool-cases (ltb 0 (length s.call_map))) [
    | inl e ↦ rw e (synthesise-Numbered s reason s.seq (reverse (entries_of s.call_map)))
    | inr e ↦ rw e tt
  ]

module _ {V : Type 0} where
  -- Whatever state a run window finds and however it ends, its events, those that `finish` makes up
  -- included, are numbered 0, 1, 2 and so on in the order in which they are forwarded: no number is
  -- skipped, not even for an event that is dropped, and none is given twice.
  pub session-Numbered :
      (s : Sequencer) (ws : List (WireEvent V)) (reason : Option String)
      → Numbered 0 (session s ws reason)
  unfolding session
  session-Numbered s ws reason = rw (start-zeroed s) (
      let z = zeroed s.last_seen_ts s.last_seen_at in
      let (h, e) = run-Numbered z ws refl in
      Numbered-append 0 (run z ws).0.seq (run z ws).1 (finish {V = V} (run z ws).0 reason).1 h e
        (finish-Numbered V (run z ws).0 reason))
