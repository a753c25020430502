-- ===== src/Projection/Wait.antt =====
-- projection/wait.go: waiting until a projection has caught up with a write.
use gohex.Prelude.{
  ℕ, suc, ◌≤◌, ◌≡◌, ◌↔◌, refl, sym, ap, ◌∙◌, ◌⊎◌, inl, inr, Bool, true, false, List, [], ◌∷◌, ℤ,
  pos, is_pos, to_nat, leb, if◌then◌else◌, arith, Bool-cases,
}
use gohex.Prelude.Text.{Text, lit}
use gohex.Kernel.Errors.{wrap, ctx_done}
use gohex.Kernel.Result.{Result, ok, err, panic}
use gohex.EventStore.Checkpoint.{CheckpointStore, CheckpointContract}

-- The poll interval is in nanoseconds.
abbrev default_wait_poll_interval : ℤ
default_wait_poll_interval = pos 25_000_000

-- WithWaitPollInterval on a waitConfig; and the loop over the options.
unfoldable pub apply_wait_option : ℤ → ℤ → ℤ
apply_wait_option poll_interval d = if is_pos d then d else poll_interval

unfoldable pub apply_wait_options : ℤ → List ℤ → ℤ
unfolding apply_wait_option
apply_wait_options poll_interval [] = poll_interval
apply_wait_options poll_interval (d ∷ opts) =
    apply_wait_options (apply_wait_option poll_interval d) opts

unfoldable pub wait_interval : List ℤ → ℤ
unfolding apply_wait_options
wait_interval opts = apply_wait_options default_wait_poll_interval opts

module _ {K : Type 0} (checkpoints : CheckpointStore K) (name : Text) (seq : ℕ) where
  -- A poll's outcome; `again` is the rest of the loop, which the end of the context replaces.
  abbrev pub after_get : Result (Unit {0}) → Result ℕ → Result (Unit {0})
  after_get again (ok cur) = if leb seq cur then ok tt else again
  after_get again (err e) = err (wrap (lit "wait for") e)
  after_get again panic = panic

  -- The loop, over the checkpoints as each poll finds them; the context ends in the wait behind
  -- the last of them.
  unfoldable pub wait_loop : K → List K → Result (Unit {0})
  wait_loop k [] =
      after_get (err (wrap (lit "wait for") ctx_done)) (checkpoints.get_checkpoint k name)
  wait_loop k (k' ∷ later) = after_get (wait_loop k' later) (checkpoints.get_checkpoint k name)

unfoldable pub wait_for_checkpoint :
    {K : Type 0} → CheckpointStore K → Text → ℤ → K → List K → Result (Unit {0})
unfolding wait_loop
wait_for_checkpoint checkpoints name seq k later =
    if is_pos seq then wait_loop checkpoints name (to_nat seq) k later else ok tt

-- The position is reached at one of the polls.
abbrev pub Reaches : {K : Type 0} → (K → Text → ℕ) → Text → ℕ → K → List K → Type 0
Reaches position name seq k [] = seq ≤ position k name
Reaches position name seq k (k' ∷ later) =
    (seq ≤ position k name) ⊎ Reaches position name seq k' later

module _ {K : Type 0} (checkpoints : CheckpointStore K) {position : K → Text → ℕ}
    (c : CheckpointContract checkpoints position) (name : Text) where
  -- One poll: with the position reached it returns nil, and else it leads to what follows.
  poll_lem :
      (seq : ℕ) (k : K) (again : Result (Unit {0}))
      → after_get checkpoints name seq again (checkpoints.get_checkpoint k name)
        ≡ (if leb seq (position k name) then ok tt else again)
  poll_lem seq k again = ap (after_get checkpoints name seq again) (c.get_lem k name)

  chosen :
      (again : Result (Unit {0})) (b : Bool)
      → (if b then ok tt else again) ≡ ok tt
      → (b ≡ true) ⊎ (again ≡ ok tt)
  chosen again true h = inl refl
  chosen again false h = inr h

  loop-reached :
      (seq : ℕ) (k : K) (later : List K)
      → wait_loop checkpoints name seq k later ≡ ok tt
      → Reaches position name seq k later
  unfolding wait_loop
  loop-reached seq k [] h =
      elim (chosen (err (wrap (lit "wait for") ctx_done)) (leb seq (position k name))
        (sym (poll_lem seq k (err (wrap (lit "wait for") ctx_done))) ∙ h)) [
          | inl e ↦ ground arith
          | inr e ↦ absurd cc
        ]
  loop-reached seq k (k' ∷ later) h =
      elim (chosen (wait_loop checkpoints name seq k' later) (leb seq (position k name))
        (sym (poll_lem seq k (wait_loop checkpoints name seq k' later)) ∙ h)) [
          | inl e ↦ inl (ground arith)
          | inr e ↦ inr (loop-reached seq k' later e)
        ]

  loop-returns :
      (seq : ℕ) (k : K) (later : List K)
      → Reaches position name seq k later
      → wait_loop checkpoints name seq k later ≡ ok tt
  unfolding wait_loop
  loop-returns seq k [] h =
      let e : leb seq (position k name) ≡ true = ground arith in
      poll_lem seq k (err (wrap (lit "wait for") ctx_done)) ∙ (rw e refl)
  loop-returns seq k (k' ∷ later) h =
      poll_lem seq k (wait_loop checkpoints name seq k' later)
      ∙ (elim (Bool-cases (leb seq (position k name))) [
        | inl e ↦ rw e refl
        | inr e ↦
            rw e (elim h [ inl f ↦ absurd (ground arith) | inr f ↦ loop-returns seq k' later f ])
      ])

  -- Read-your-writes: a wait for a position above 0 returns nil exactly if one of its polls finds
  -- the checkpoint at that position or behind it, before the context ends.
  pub wait_for_checkpoint_iff :
      (seq : ℕ) (k : K) (later : List K)
      → (wait_for_checkpoint checkpoints name (pos (suc seq)) k later ≡ ok tt)
        ↔ Reaches position name (suc seq) k later
  unfolding wait_for_checkpoint
  wait_for_checkpoint_iff seq k later =
      (loop-reached (suc seq) k later, loop-returns (suc seq) k later)
