-- ===== src/Indexer/Quiet.antt =====
-- internal/indexer/parser.go: an item that mentions no packet_recv and no write_ack is no such event.
use gno_ibc_relayer_api.Prelude.{
  ◌≡◌, refl, Bool, true, false, ◌||◌, Option, none, some, List, [], ◌∷◌, arith, if◌then◌else◌, All,
  Bool-cases, inl, inr,
}
use gno_ibc_relayer_api.Prelude.Int.{pos, eq_ℤ}
use gno_ibc_relayer_api.Prelude.Membership.{Bool-apart}
use gno_ibc_relayer_api.Prelude.Strings.{Bytes, codes, str_eq}
use gno_ibc_relayer_api.Json.{Raw}
use gno_ibc_relayer_api.Indexer.Items.{
  TypedValue, PluginBody, ChainEventBody, BatchEntry, unmarshal_typed, unmarshal_body,
  unmarshal_chain_event, unmarshal_packet_send, unmarshal_batches,
}
use gno_ibc_relayer_api.Indexer.Render.{is_gno_plugin}
use gno_ibc_relayer_api.Indexer.Fields.{
  Parsed, found, absent, failed, crashed, or_absent, is_tag, ItemFields, call_body, ack_fields,
  send_fields, call_fields, first_timeout, first_of_batches, promise_fields, parse_item_fields,
  collect_timeouts, multicall_timeouts, parse_packet_timeouts,
}
use gno_ibc_relayer_api.Indexer.Fields
use gno_ibc_relayer_api.Indexer.Batches.{like, like_prefix}
use gno_ibc_relayer_api.Indexer.Clean.{
  Gives, Clean, CleanTyped, CleanEntry, unmarshal_typed-Clean, unmarshal_body-Clean,
  unmarshal_chain_event-Clean,
}
use gno_ibc_relayer_api.Indexer.CleanItems.{unmarshal_batches-Clean}

abbrev pub recv : Bytes
recv = codes "packet_recv"

abbrev pub ack : Bytes
ack = codes "write_ack"

abbrev pub timeout : Bytes
timeout = codes "packet_timeout"

pub likes : (like recv recv ≡ true) × (like ack ack ≡ true) × (like timeout timeout ≡ true)
unfolding like like_prefix
likes = (refl, refl, refl)

-- The value, if one is found, and there is no panic.
abbrev pub Safe : {A : Type 0} → (A → Type 0) → Parsed A → Type 0
Safe P (found a) = P a
Safe P absent = Unit
Safe P failed = Unit
Safe P crashed = ⊥

Safe-or_absent :
    {A B : Type 0} (P : A → Type 0) (Q : B → Type 0) (m : Option A) (f : A → Parsed B)
    → Gives P m
    → ((a : A) → P a → Safe Q (f a))
    → Safe Q (Fields.◌>>=◌ (or_absent m) f)
Safe-or_absent P Q none f h k = tt
Safe-or_absent P Q (some a) f h k = k a h

Safe-if :
    {A : Type 0} (P : A → Type 0) (b : Bool) (x y : Parsed A)
    → (b ≡ true → Safe P x)
    → (b ≡ false → Safe P y)
    → Safe P (if b then x else y)
Safe-if P true x y h k = h refl
Safe-if P false x y h k = k refl

pub Gives-both :
    {A : Type 0} (P Q : A → Type 0) (m : Option A)
    → Gives P m
    → Gives Q m
    → Gives (λ a. P a × Q a) m
Gives-both P Q none h k = tt
Gives-both P Q (some a) h k = (h, k)

Gives-any : {A : Type 0} (m : Option A) → Gives (λ _. Unit {0}) m
Gives-any none = tt
Gives-any (some a) = tt

-- The event is none that a `done` row acts on.
abbrev pub Quiet : ItemFields → Type 0
Quiet f = (is_tag "packet_recv" f.event_type || is_tag "write_ack" f.event_type) ≡ false

or_false : (a b : Bool) → a ≡ false → b ≡ false → (a || b) ≡ false
or_false a b h k = ground arith

-- Nothing in the value mentions an event that acts.
abbrev pub Calm : TypedValue → Type 0
Calm t = CleanTyped recv t × CleanTyped ack t

pub no_text : (str_eq [] recv ≡ false) × (str_eq [] ack ≡ false) × (str_eq [] timeout ≡ false)
unfolding str_eq
no_text = (refl, refl, refl)

Calm-event :
    (raw : Raw)
    → Clean recv raw
    → Clean ack raw
    → Gives (λ e. Calm e.event) (unmarshal_chain_event raw)
Calm-event raw h k =
    Gives-both _ _ (unmarshal_chain_event raw)
      (unmarshal_chain_event-Clean recv likes.0 no_text.0 raw h)
      (unmarshal_chain_event-Clean ack likes.1 no_text.1 raw k)

send_fields-Quiet : (e : ChainEventBody) (g : Bool) → Calm e.event → Safe Quiet (send_fields e g)
unfolding send_fields
send_fields-Quiet e g c =
    Safe-or_absent (λ _. Unit {0}) Quiet (unmarshal_packet_send e.event.value) _ (Gives-any _)
      (λ ev _. or_false _ _ c.0.0 c.1.0)

no_ack :
    (e : ChainEventBody) (x y : Parsed ItemFields)
    → Calm e.event
    → Safe Quiet y
    → Safe Quiet (if is_tag "write_ack" e.event.tag then x else y)
no_ack e x y k h =
    Safe-if Quiet (is_tag "write_ack" e.event.tag) x y (λ is. absurd (Bool-apart _ is k.1.0))
      (λ _. h)

call_fields-Quiet : (body : PluginBody) → Calm body.message → Safe Quiet (call_fields body)
unfolding call_fields
call_fields-Quiet body c =
    let event : Gives (λ e. Calm e.event) (unmarshal_chain_event body.message.value) =
      Calm-event body.message.value c.0.1 c.1.1 in
    Safe-if Quiet (is_tag "make_full_event" body.message.tag) _ _
      (λ _. Safe-or_absent (λ e. Calm e.event) Quiet _ _ event (λ e k. no_ack e _ _ k tt))
      (λ _.
        Safe-if Quiet (is_tag "make_chain_event" body.message.tag) _ _
          (λ _.
            Safe-or_absent (λ e. Calm e.event) Quiet _ _ event
              (λ e k. no_ack e _ _ k (
                Safe-if Quiet (is_tag "packet_send" e.event.tag || is_tag "packet_recv" e.event.tag)
                  (send_fields e (is_gno_plugin body.plugin)) absent
                  (λ _. send_fields-Quiet e (is_gno_plugin body.plugin) k) (λ _. tt))))
          (λ _. tt))

first_timeout-Gives :
    (P : BatchEntry → Type 0) (es : List BatchEntry) → All P es → Gives P (first_timeout es)
unfolding first_timeout
first_timeout-Gives P [] h = tt
first_timeout-Gives P (e ∷ es) h = elim (Bool-cases (eq_ℤ e.timeout_timestamp (pos 0))) [
  | inl zero ↦ rw (zero, first_timeout) (first_timeout-Gives P es h.1)
  | inr timed ↦ rw (timed, first_timeout) h.0
]

first_of_batches-Gives :
    (P : BatchEntry → Type 0) (bs : List (List BatchEntry))
    → All (All P) bs
    → Gives P (first_of_batches bs)
unfolding first_of_batches
first_of_batches-Gives P [] h = tt
first_of_batches-Gives P (b ∷ bs) h =
    first_or (first_timeout b) (first_timeout-Gives P b h.0) (first_of_batches-Gives P bs h.1)
  where
    first_or :
        (o : Option BatchEntry)
        → Gives P o
        → Gives P (first_of_batches bs)
        → Gives P (elim o [ some e ↦ some e | none ↦ first_of_batches bs ])
    first_or none h k = k
    first_or (some e) h k = h

promise_fields-Quiet :
    (raw : Raw) → Clean recv raw → Clean ack raw → Safe Quiet (promise_fields raw)
unfolding promise_fields
promise_fields-Quiet raw h k =
    Safe-or_absent (λ bs. All (All (CleanEntry recv)) bs × All (All (CleanEntry ack)) bs) Quiet _ _
      (Gives-both _ _ (unmarshal_batches raw) (unmarshal_batches-Clean recv likes.0 no_text.0 raw h)
        (unmarshal_batches-Clean ack likes.1 no_text.1 raw k))
      λ bs c.
        Safe-or_absent (λ e. CleanEntry recv e × CleanEntry ack e) Quiet _ _
          (Gives-both _ _ (first_of_batches bs) (first_of_batches-Gives (CleanEntry recv) bs c.0)
            (first_of_batches-Gives (CleanEntry ack) bs c.1))
          (λ e d. or_false _ _ d.0 d.1)

pub call_body-Clean :
    (p : Bytes)
    → like p p ≡ true
    → str_eq [] p ≡ false
    → (outer : TypedValue) → CleanTyped p outer
    → Gives (λ b. CleanTyped p b.message) (call_body outer)
unfolding call_body
call_body-Clean p itself text outer c =
    by_call (unmarshal_typed outer.value) (unmarshal_typed-Clean p itself text outer.value c.1)
  where
    by_tag :
        (b : Bool) (call : TypedValue)
        → CleanTyped p call
        → Gives (λ b. CleanTyped p b.message) (if b then unmarshal_body call.value else none)
    by_tag true call k = unmarshal_body-Clean p itself text call.value k.1
    by_tag false call k = tt

    by_call :
        (o : Option TypedValue)
        → Gives (CleanTyped p) o
        → Gives
            (λ b. CleanTyped p b.message)
            (elim o [
              | none ↦ none
              | some call ↦ if is_tag "plugin" call.tag then unmarshal_body call.value else none
            ])
    by_call none k = tt
    by_call (some call) k = by_tag (is_tag "plugin" call.tag) call k

pub parse_item_fields-Quiet :
    (raw : Raw) → Clean recv raw → Clean ack raw → Safe Quiet (parse_item_fields raw)
unfolding parse_item_fields
parse_item_fields-Quiet raw h k =
    Safe-or_absent Calm Quiet _ _
      (Gives-both _ _ (unmarshal_typed raw) (unmarshal_typed-Clean recv likes.0 no_text.0 raw h)
        (unmarshal_typed-Clean ack likes.1 no_text.1 raw k))
      λ outer c.
        Safe-if Quiet (is_tag "call" outer.tag) _ _
          (λ _.
            Safe-or_absent (λ b. Calm b.message) Quiet _ _
              (Gives-both _ _ (call_body outer) (call_body-Clean recv likes.0 no_text.0 outer c.0)
                (call_body-Clean ack likes.1 no_text.1 outer c.1))
              call_fields-Quiet)
          (λ _.
            Safe-if Quiet (is_tag "promise" outer.tag) _ _
              (λ _. promise_fields-Quiet outer.value c.0.1 c.1.1) (λ _. tt))
