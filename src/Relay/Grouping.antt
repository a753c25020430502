-- ===== src/Relay/Grouping.antt =====
-- relay/relay.go: a batch that Run groups by topic.
use gohex.Prelude.{
  ◌≡◌, refl, sym, ap, ◌∙◌, subst, inl, inr, Bool, true, false, Option, none, some, List, [], ◌∷◌,
  ◌++◌, append-nil, append_assoc, is_some, if◌then◌else◌, arith, Bool-cases,
}
use gohex.Prelude.EqClass.{◌==◌}
use gohex.Prelude.Map.{get, get-put}
use gohex.Prelude.Text.{Text, text_eq, text_beq_iff}
use gohex.Kernel.Result.{Result, ok, err, panic, ◌>>=◌, bind-eq-ok}
use gohex.EventStore.Types.{RecordedEvent}
use gohex.Broker.Message.{Message, IntegrationEvent}
use gohex.Relay.{Relay, Groups, no_groups, or_nil, messages_of, add_message, add_translated}
use gohex.Relay.Run.{group, translate}

ok_injective : {A : Type 0} (a b : A) → ok a ≡ ok b → a ≡ b
ok_injective a b e = cc

-- Whether a topic is in a list.
abbrev pub has_topic : List Text → Text → Bool
has_topic [] u = false
has_topic (t ∷ ts) u = if t == u then true else has_topic ts u

has_topic-append_one :
    (ts : List Text) (t u : Text)
    → has_topic (ts ++ t ∷ []) u ≡ (if has_topic ts u then true else t == u)
has_topic-append_one [] t u = ground arith
has_topic-append_one (x ∷ ts) t u = ground (arith, has_topic-append_one ts t u)

-- The topics of a group are the keys of its map.
pub IsGroups : Groups → Type 0
IsGroups g = (u : Text) → has_topic g.topics u ≡ is_some (get g.by_topic u)

pub no_groups-IsGroups : IsGroups no_groups
unfolding IsGroups get
no_groups-IsGroups u = refl

add_message-IsGroups :
    (g : Groups) (t : Text) (m : Message) → IsGroups g → IsGroups (add_message g t m)
unfolding IsGroups add_message
add_message-IsGroups g t m h u = elim (Bool-cases (t == u)) [
  | inl same ↦ elim (Bool-cases (is_some (get g.by_topic t))) [
    | inl old ↦
        let e : t ≡ u = (text_beq_iff t u).0 same in rw (get-put, old, same) (h u ∙ rw (sym e) old)
    | inr fresh ↦
        rw (get-put, fresh, same, has_topic-append_one, same) (either (has_topic g.topics u))
  ]
  | inr differ ↦ elim (Bool-cases (is_some (get g.by_topic t))) [
    | inl old ↦ rw (get-put, old, differ) (h u)
    | inr fresh ↦
        rw (get-put, fresh, differ, has_topic-append_one, differ)
          (keep (has_topic g.topics u) ∙ h u)
  ]
]
  where
    either : (b : Bool) → (if b then true else true) ≡ true
    either true = refl
    either false = refl

    keep : (b : Bool) → (if b then true else false) ≡ b
    keep true = refl
    keep false = refl

messages_of-add_message :
    (g : Groups) (t u : Text) (m : Message)
    → messages_of (add_message g t m) u ≡ messages_of g u ++ (if t == u then m ∷ [] else [])
unfolding messages_of add_message
messages_of-add_message g t u m =
    ap or_nil (get-put g.by_topic t u (messages_of g t ++ m ∷ [])) ∙ by_test (t == u) refl
  where
    by_test :
        (b : Bool)
        → (t == u) ≡ b
        → or_nil (if b then some (messages_of g t ++ m ∷ []) else get g.by_topic u)
          ≡ messages_of g u ++ (if b then m ∷ [] else [])
    by_test true same = ap (λ v. messages_of g v ++ m ∷ []) ((text_beq_iff t u).0 same)
    by_test false differ = sym (append-nil (messages_of g u))

messages_of_no_topic :
    (g : Groups) (u : Text) → IsGroups g → has_topic g.topics u ≡ false → messages_of g u ≡ []
unfolding IsGroups messages_of
messages_of_no_topic g u h e = missing (get g.by_topic u) (sym (h u) ∙ e)
  where
    missing : (o : Option (List Message)) → is_some o ≡ false → or_nil o ≡ []
    missing none q = refl
    missing (some l) q = absurd cc

-- The messages that a batch has for a topic, in the order of the batch.
module _ {S B K E I : Type 0} ⦃ie : IntegrationEvent I⦄ (r : Relay S B K E I) where
  abbrev pub message_for : Text → Result (Option (Text × Message)) → List Message
  message_for u (ok none) = []
  message_for u (ok (some (t, m))) = if t == u then m ∷ [] else []
  message_for u (err e) = []
  message_for u panic = []

  abbrev pub messages_for : Text → List RecordedEvent → List Message
  messages_for u [] = []
  messages_for u (rec ∷ recs) = message_for u (translate r rec) ++ messages_for u recs

  messages_of-add_translated :
      (g : Groups) (t : Option (Text × Message)) (u : Text)
      → messages_of (add_translated g t) u ≡ messages_of g u ++ message_for u (ok t)
  unfolding add_translated
  messages_of-add_translated g none u = sym (append-nil (messages_of g u))
  messages_of-add_translated g (some (t, m)) u = messages_of-add_message g t u m

  add_translated-IsGroups :
      (g : Groups) (t : Option (Text × Message)) → IsGroups g → IsGroups (add_translated g t)
  unfolding add_translated
  add_translated-IsGroups g none h = h
  add_translated-IsGroups g (some (t, m)) h = add_message-IsGroups g t m h

  group_def :
      (g : Groups) (rec : RecordedEvent) (recs : List RecordedEvent)
      → group r g (rec ∷ recs) ≡ (translate r rec >>= λ t. group r (add_translated g t) recs)
  unfolding group
  group_def g rec recs = refl

  group-lem :
      (g : Groups) (recs : List RecordedEvent) (g' : Groups)
      → IsGroups g
      → group r g recs ≡ ok g'
      → IsGroups g' × ((u : Text) → messages_of g' u ≡ messages_of g u ++ messages_for u recs)
  unfolding group
  group-lem g [] g' h e =
      let same : g ≡ g' = ok_injective g g' e in
      (
        subst IsGroups same h,
        λ u. ap (λ x. messages_of x u) (sym same) ∙ sym (append-nil (messages_of g u)),
      )
  group-lem g (rec ∷ recs) g' h e =
      let (t, translated, rest) =
        bind-eq-ok (translate r rec) (λ t. group r (add_translated g t) recs) e in
      let ih = group-lem (add_translated g t) recs g' (add_translated-IsGroups g t h) rest in
      (
        ih.0,
        λ u.
            ih.1 u
            ∙ ap (λ l. l ++ messages_for u recs) (messages_of-add_translated g t u)
            ∙ append_assoc (messages_of g u) (message_for u (ok t)) (messages_for u recs)
            ∙ ap (λ x. messages_of g u ++ (message_for u x ++ messages_for u recs))
                (sym translated),
      )

-- The grouping of a batch keeps each topic's messages in the order of the events: behind a topic
-- stand exactly the messages that the batch's events translate to for it, in the batch's order,
-- and a topic that is not listed for publishing has none.
pub group_in_order :
    {S B K E I : Type 0} ⦃ie : IntegrationEvent I⦄ (r : Relay S B K E I) (recs : List RecordedEvent)
    (g : Groups)
    → group r no_groups recs ≡ ok g
    → (u : Text)
    → (messages_of g u ≡ messages_for r u recs)
      × (has_topic g.topics u ≡ false → messages_for r u recs ≡ [])
unfolding messages_of get
group_in_order r recs g e u =
    let (keys, order) = group-lem r no_groups recs g no_groups-IsGroups e in
    (order u, λ absent. sym (order u) ∙ messages_of_no_topic g u keys absent)
