-- ===== src/Sandbox/Sequencer/Frames.antt =====
-- run-sequencer.ts: the invariant that ties the reference stack to the call map.
use workflow_engine.Prelude.{
  ℕ, suc, ◌+◌, ◌≡◌, ap, sym, List, [], ◌∷◌, arith, nat_eq, inl, inr, Option-cases, Bool-cases, ◌∙◌,
  subst, snoc,
}
use workflow_engine.Prelude.Maps.{get, delete, Fresh, Distinct, set-Distinct, delete-Distinct}
use workflow_engine.Sandbox.Sequencer.{
  Sequencer, WireEvent, WireFraming, leaf, open_frame, close_frame, CallMapEntry, frame, next,
  handle_close, seen, drop_frame, entry_of,
}
use workflow_engine.Sandbox.Sequencer.Stack.{
  open_seqs, Rising, Rising-snoc, Rising-wider, Rising-delete, open_seqs-set, drop_frame-delete,
}
use workflow_engine.Sandbox.Sequencer.Session.{run, next_open, next_shut}

-- The stack lists the frames of the map in the order of opening, under the counter.
pub record Inv (s : Sequencer) : Type 0 where
  pub mirrors : s.ref_stack ≡ open_seqs s.call_map
  pub rising : Rising 0 s.seq (open_seqs s.call_map)
  pub distinct : Distinct s.call_map

-- An open does not reuse the call id of a frame that is still open. The bridge mints a new id for
-- each.
abbrev pub FreshOpen : List (ℕ × CallMapEntry) → WireFraming → Type 0
FreshOpen m (open_frame id) = Fresh id m
FreshOpen m leaf = Unit
FreshOpen m (close_frame id) = Unit

module _ {V : Type 0} where
  abbrev pub FreshOpens : Sequencer → List (WireEvent V) → Type 0
  FreshOpens s [] = Unit
  FreshOpens s (w ∷ ws) = FreshOpen s.call_map w.framing × FreshOpens (next s w).0 ws

  frame-Inv :
      (s : Sequencer) (w : WireEvent V) (f : WireFraming)
      → FreshOpen s.call_map f
      → Inv s
      → Inv (frame s w f).0
  unfolding frame handle_close
  frame-Inv s w leaf h v = record {
    mirrors = v.mirrors;
    rising = Rising-wider 0 s.seq (s.seq + 1) (open_seqs s.call_map) (omega arith) v.rising;
    distinct = v.distinct;
  }
  frame-Inv s w (open_frame id) h v = record {
    mirrors =
        ap (λ (l : List ℕ). snoc l s.seq) v.mirrors
        ∙ sym (open_seqs-set id (entry_of s w) s.call_map h);
    rising =
        let e : suc s.seq ≡ s.seq + 1 = omega arith in
        rw (open_seqs-set id (entry_of s w) s.call_map h) (
          subst (λ k. Rising 0 k (snoc (open_seqs s.call_map) s.seq)) e
            (Rising-snoc 0 s.seq (open_seqs s.call_map) v.rising));
    distinct = set-Distinct id (entry_of s w) s.call_map v.distinct;
  }
  frame-Inv s w (close_frame id) h v = elim (Option-cases (get id s.call_map)) [
    | inl e ↦ rw (e, frame, handle_close) v
    | inr (c, e) ↦
        rw (e, frame, handle_close)
          (record {
            mirrors =
                ap (drop_frame c.open_seq) v.mirrors
                ∙ drop_frame-delete id c 0 s.seq s.call_map v.rising e;
            rising =
                Rising-wider 0 s.seq (s.seq + 1) (open_seqs (delete id s.call_map)) (omega arith)
                  (Rising-delete id 0 s.seq s.call_map v.rising);
            distinct = delete-Distinct id s.call_map v.distinct;
          })
  ]

  pub seen-Inv : (s : Sequencer) (w : WireEvent V) → Inv s → Inv (seen s w)
  seen-Inv s w v = record { mirrors = v.mirrors; rising = v.rising; distinct = v.distinct }

  pub next-Inv :
      (s : Sequencer) (w : WireEvent V) → FreshOpen s.call_map w.framing → Inv s → Inv (next s w).0
  next-Inv s w h v = elim (Bool-cases s.run_active) [
    | inl e ↦ rw (next_open s w e) (frame-Inv (seen s w) w w.framing h (seen-Inv s w v))
    | inr e ↦ rw (next_shut s w e) v
  ]

  pub run-Inv :
      (s : Sequencer) (ws : List (WireEvent V)) → FreshOpens s ws → Inv s → Inv (run s ws).0
  unfolding run
  run-Inv s [] h v = v
  run-Inv s (w ∷ ws) (f, h) v = run-Inv (next s w).0 ws h (next-Inv s w f v)
