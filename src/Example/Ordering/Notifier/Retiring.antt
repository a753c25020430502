-- ===== src/Example/Ordering/Notifier/Retiring.antt =====
-- gohex-example/ordering/internal/app/notifier.go: which rows of the worklist a tick retires.
use gohex.Prelude.{
  ℕ, ◌≡◌, refl, ap, sym, ◌∙◌, fun_ext, pos, Bool, true, false, ◌||◌, Option, none, some, List, [],
  ◌∷◌, map, eqb, ◌⊎◌, inl, inr, Bool-cases, if◌then◌else◌,
}
use gohex.Prelude.Text.{Text}
use gohex.Kernel.Errors.{Error}
use gohex.EventStore.Types.{Metadata}
use gohex.EventStore.Position.{Context}
use gohex.Example.Ordering.Ports.{PendingNotification}
use gohex.Example.Ordering.Service.{NotifyCustomer}
use gohex.Example.Ordering.Postgres.{
  NotificationRow, Worklist, update_sent, mark_sent, postgres_queue,
}
use gohex.Example.Ordering.Notifier.{Notifier, send_all, tick, after_dispatch}

abbrev no_fault : Worklist → Option Error
no_fault q = none

-- A row with sent_at set, if its ID is one of those.
abbrev pub retire : List ℕ → NotificationRow → NotificationRow
retire [] r = r
retire (id ∷ ids) r = retire ids (if eqb r.id id then record r { sent = true } else r)

abbrev pub is_among : List ℕ → ℕ → Bool
is_among [] id = false
is_among (j ∷ js) id = eqb id j || is_among js id

module _ {W Q : Type 0} (n : Notifier W Q) where
  -- The IDs of the rows whose commands returned nil, one dispatched after the other.
  abbrev pub succeeded_with : (W → W × List ℕ) → ℕ → W × Option Error → W × List ℕ
  succeeded_with rest id (w, some x) = rest w
  succeeded_with rest id (w, none) = let (w', ids) = rest w in (w', id ∷ ids)

  unfoldable pub succeeded : Context → List PendingNotification → W → W × List ℕ
  succeeded ctx [] w = (w, [])
  succeeded ctx (row ∷ rows) w =
      succeeded_with (λ w'. succeeded ctx rows w') row.id
        (n.dispatch (n.start_linked ctx row.metadata) w
          (record { order_id = row.order_id; reason = row.reason }))

update_sent-map :
    (id : ℕ) (rs : List NotificationRow) → update_sent id rs ≡ map (retire (id ∷ [])) rs
unfolding update_sent
update_sent-map id [] = refl
update_sent-map id (r ∷ rs) = ap (λ l. retire (id ∷ []) r ∷ l) (update_sent-map id rs)

map-retire_nil : (rs : List NotificationRow) → map (retire []) rs ≡ rs
map-retire_nil [] = refl
map-retire_nil (r ∷ rs) = ap (λ l. r ∷ l) (map-retire_nil rs)

map-retire_cons :
    (id : ℕ) (ids : List ℕ) (rs : List NotificationRow)
    → map (retire ids) (map (retire (id ∷ [])) rs) ≡ map (retire (id ∷ ids)) rs
map-retire_cons id ids [] = refl
map-retire_cons id ids (r ∷ rs) = ap (λ l. retire (id ∷ ids) r ∷ l) (map-retire_cons id ids rs)

or_true : (b : Bool) → b || true ≡ true
or_true true = refl
or_true false = refl

retire-among :
    (ids : List ℕ) (r : NotificationRow)
    → retire ids r ≡ record r { sent = is_among ids r.id || r.sent }
retire-among [] r = refl
retire-among (id ∷ ids) r = elim (Bool-cases (eqb r.id id)) [
  | inl e ↦ rw e (
      retire-among ids (record r { sent = true })
      ∙ ap (λ b. record r { sent = b }) (or_true (is_among ids r.id)))
  | inr e ↦ rw e (retire-among ids r)
]

map_pointwise :
    {A B : Type 0} (f g : A → B) → ((a : A) → f a ≡ g a) → (l : List A) → map f l ≡ map g l
map_pointwise f g h l = rw (fun_ext h) refl

module _ {W : Type 0} (encode : Metadata → Text ⊎ Error) (decode : Text → Metadata ⊎ Error)
    (dispatch : Context → W → NotifyCustomer → W × Option Error) (start_batch : Context → Context)
    (start_linked : Context → Metadata → Context) where
  abbrev pub worker : Notifier W Worklist
  worker = record {
    queue = postgres_queue no_fault encode decode;
    dispatch = dispatch;
    start_batch = start_batch;
    start_linked = start_linked;
    cfg = record { interval = pos 1; batch_size = pos 50 };
  }

  abbrev retired : Worklist → W × List ℕ → W × Worklist
  retired q (w, ids) = (w, record q { rows = map (retire ids) q.rows })

  after_dispatch-retired :
      (ctx : Context) (row : PendingNotification) (rows : List PendingNotification) (q : Worklist)
      (o : W × Option Error)
      → ((w : W) (q' : Worklist)
          → send_all worker ctx rows (w, q') ≡ retired q' (succeeded worker ctx rows w))
      → send_all worker ctx rows (after_dispatch worker row q o)
        ≡ retired q (succeeded_with worker (λ w'. succeeded worker ctx rows w') row.id o)
  after_dispatch-retired ctx row rows q (w, some x) ih = ih w q
  after_dispatch-retired ctx row rows q (w, none) ih =
      let next = succeeded worker ctx rows w in
      let rest : map (retire next.1) (update_sent row.id q.rows)
          ≡ map (retire (row.id ∷ next.1)) q.rows =
        ap (map (retire next.1)) (update_sent-map row.id q.rows)
        ∙ map-retire_cons row.id next.1 q.rows in
      ih w (mark_sent no_fault encode decode q row.id).0
      ∙ (unfold mark_sent in ap (λ l. (next.0, record q { rows = l })) rest)

  send_all-retired :
      (ctx : Context) (rows : List PendingNotification) (w : W) (q : Worklist)
      → send_all worker ctx rows (w, q) ≡ retired q (succeeded worker ctx rows w)
  unfolding send_all succeeded
  send_all-retired ctx [] w q = ap (λ l. (w, record q { rows = l })) (sym (map-retire_nil q.rows))
  send_all-retired ctx (row ∷ rows) w q =
      after_dispatch-retired ctx row rows q _ (λ w' q'. send_all-retired ctx rows w' q')

  -- A tick on the rows of a batch, where the database does not fail: the commands are dispatched one
  -- after the other, one for each row of the batch, and exactly the rows whose command returned nil
  -- are retired. Every other row of the worklist is as it was: a row whose dispatch failed stays
  -- pending for the next tick, a retired one stays retired, and none is added or dropped.
  pub tick_retires_succeeded :
      (ctx : Context) (rows : List PendingNotification) (w : W) (q : Worklist)
      → let (w', q') = tick worker ctx rows (w, q) in
        let (told, ids) = succeeded worker (start_batch ctx) rows w in
        (w' ≡ told)
        × (q'.next_id ≡ q.next_id)
        × (q'.rows
            ≡ map (λ (r : NotificationRow). record r { sent = is_among ids r.id || r.sent }) q.rows)
  unfolding tick
  tick_retires_succeeded ctx rows w q =
      let next = succeeded worker (start_batch ctx) rows w in
      rw (send_all-retired (start_batch ctx) rows w q)
        (refl, refl, map_pointwise (retire next.1) _ (retire-among next.1) q.rows)
