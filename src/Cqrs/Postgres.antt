-- ===== src/Cqrs/Postgres.antt =====
-- cqrs-postgres/dedup.go: the statements of the deduplicator, on the rows of its table. The column
-- processed_at, which no statement reads, is left out. `query_fault` and `exec_fault` say whether a
-- statement fails on a table, without an effect.
use gohex.Prelude.{
  ◌≡◌, refl, ap, ◌∙◌, Bool, true, false, ◌||◌, Option, none, some, List, [], ◌∷◌, ◌⊎◌, inl, inr,
  Bool-cases, if◌then◌else◌,
}
use gohex.Prelude.Text.{Text, text_eq, text_beq, text_beq_iff, lit}
use gohex.Kernel.Errors.{Error, wrap}
use gohex.Cqrs.Wire.{Deduplicator, Remembers}

-- The table processed_messages.
abbrev pub ProcessedTable : Type 0
ProcessedTable = List Text

-- EXISTS (SELECT 1 ... WHERE id = $1)
unfoldable pub exists_id : Text → ProcessedTable → Bool
exists_id id [] = false
exists_id id (j ∷ js) = text_beq j id || exists_id id js

module _ (query_fault exec_fault : ProcessedTable → Option Error) where
  unfoldable pub processed_row : ProcessedTable → Text → Bool ⊎ Error
  unfolding exists_id
  processed_row t id = elim (query_fault t) [
    | some x ↦ inr (wrap (lit "cqrspg: processed") x)
    | none ↦ inl (exists_id id t)
  ]

  -- ON CONFLICT (id) DO NOTHING
  abbrev pub executed : ProcessedTable → Text → Option Error → ProcessedTable × Option Error
  executed t id (some x) = (t, some (wrap (lit "cqrspg: mark") x))
  executed t id none = (if exists_id id t then t else id ∷ t, none)

  unfoldable pub mark_row : ProcessedTable → Text → ProcessedTable × Option Error
  mark_row t id = executed t id (exec_fault t)

  abbrev pub postgres_deduplicator : Deduplicator ProcessedTable
  postgres_deduplicator = record { processed = processed_row; mark_processed = mark_row }

  module _ (readable : (t : ProcessedTable) → query_fault t ≡ none) where
    processed_row-exists :
        (t : ProcessedTable) (id : Text) → processed_row t id ≡ inl (exists_id id t)
    unfolding processed_row
    processed_row-exists t id = rw (processed_row, readable t) refl

    executed-marks :
        (t t' : ProcessedTable) (id : Text) (f : Option Error)
        → executed t id f ≡ (t', none)
        → exists_id id t' ≡ true
    unfolding exists_id
    executed-marks t t' id (some x) h = absurd (
        let e : some (wrap (lit "cqrspg: mark") x) ≡ none =
          ap (λ (p : ProcessedTable × Option Error). p.1) h in
        cc)
    executed-marks t t' id none h = elim (Bool-cases (exists_id id t)) [
      | inl known ↦
          let e : t ≡ t' = rw known at (ap (λ (p : ProcessedTable × Option Error). p.0) h) in
          rw (← e) known
      | inr new ↦
          let e : id ∷ t ≡ t' = rw new at (ap (λ (p : ProcessedTable × Option Error). p.0) h) in
          rw (← e, (text_beq_iff id id).1 refl) refl
    ]

    executed-keeps :
        (t : ProcessedTable) (id j : Text) (f : Option Error)
        → exists_id id t ≡ true
        → exists_id id (executed t j f).0 ≡ true
    unfolding exists_id
    executed-keeps t id j (some x) h = h
    executed-keeps t id j none h = elim (Bool-cases (exists_id j t)) [
      | inl known ↦ rw known h
      | inr new ↦ rw new (elim (Bool-cases (text_beq j id)) [ inl e ↦ rw e refl | inr e ↦ rw e h ])
    ]

    -- The deduplicator keeps the port's contract where its queries do not fail, whichever of its
    -- inserts do: a mark that returned nil shows from then on, and no mark, failed or repeated,
    -- removes another.
    pub postgres_deduplicator-Remembers : Remembers postgres_deduplicator
    unfolding mark_row
    postgres_deduplicator-Remembers = record {
      marks = λ t t' id e.
          processed_row-exists t' id ∙ ap (λ b. inl b) (executed-marks t t' id (exec_fault t) e);
      keeps = λ t id j h.
          let there : exists_id id t ≡ true = cc (processed_row-exists t id, h) in
          processed_row-exists (mark_row t j).0 id
          ∙ ap (λ b. inl b) (executed-keeps t id j (exec_fault t) there);
    }
