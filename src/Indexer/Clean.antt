-- ===== src/Indexer/Clean.antt =====
-- internal/indexer/parser.go and sync.go: what is read from an item in which a LIKE pattern matches
-- nothing does not hold the pattern as a tag.
use Prim.Native.String.{String}
use gno_ibc_relayer_api.Prelude.{
  ◌≡◌, refl, subst, Bool, true, false, ◌||◌, Option, none, some, [], arith, if◌then◌else◌,
  Bool-cases, inl, inr,
}
use gno_ibc_relayer_api.Prelude.Membership.{Bool-apart}
use gno_ibc_relayer_api.Prelude.Strings.{Bytes, codes, str_eq, str_eq→eq}
use gno_ibc_relayer_api.Json.{
  Members, Raw, null, string, object, end, member, ◌>>=◌, raw_member, members_of, string_of,
  struct_of, string_at, struct_at, int_at, raw_at, lower,
}
use gno_ibc_relayer_api.Indexer.Items.{
  TypedValue, BatchEntry, typed_of, unmarshal_typed, unmarshal_body, unmarshal_chain_event,
}
use gno_ibc_relayer_api.Indexer.Batches.{like, mentions, members_mention}

-- What the value meets, if there is one.
abbrev pub Gives : {A : Type 0} → (A → Type 0) → Option A → Type 0
Gives P none = Unit
Gives P (some a) = P a

pub Gives-bind :
    {A B : Type 0} (P : A → Type 0) (Q : B → Type 0) (m : Option A) (f : A → Option B)
    → Gives P m
    → ((a : A) → P a → Gives Q (f a))
    → Gives Q (m >>= f)
Gives-bind P Q none f h k = tt
Gives-bind P Q (some a) f h k = k a h

pub Gives-any : {A : Type 0} (m : Option A) → Gives (λ _. Unit {0}) m
Gives-any none = tt
Gives-any (some a) = tt

pub or_false_left : (a b : Bool) → (a || b) ≡ false → a ≡ false
or_false_left a b h = ground arith

pub or_false_right : (a b : Bool) → (a || b) ≡ false → b ≡ false
or_false_right a b h = ground arith

module _ (p : Bytes) where
  -- The pattern matches nowhere in the text.
  abbrev pub Clean : Raw → Type 0
  Clean none = Unit
  Clean (some v) = mentions p v ≡ false

  abbrev pub CleanMembers : Members → Type 0
  CleanMembers ms = members_mention p ms ≡ false

  -- The tag is not the pattern, and the pattern matches nowhere in the value.
  abbrev pub CleanTyped : TypedValue → Type 0
  CleanTyped t = (str_eq t.tag p ≡ false) × Clean t.value

  -- The tag of an entry of a batch is not the pattern.
  abbrev pub CleanEntry : BatchEntry → Type 0
  CleanEntry e = str_eq e.tag p ≡ false

module _ (p : Bytes) (itself : like p p ≡ true) (text : str_eq [] p ≡ false) where
  raw_member-Clean : (k : Bytes) (ms : Members) → CleanMembers p ms → Clean p (raw_member k ms)
  unfolding raw_member members_mention
  raw_member-Clean k end h = tt
  raw_member-Clean k (member j v ms) h =
      last_wins (raw_member k ms)
        (raw_member-Clean k ms (or_false_right (mentions p v) _ (or_false_right (like p j) _ h)))
    where
      value : mentions p v ≡ false
      value = or_false_left (mentions p v) _ (or_false_right (like p j) _ h)

      unless_other : (b : Bool) → Clean p (if b then some v else none)
      unless_other true = value
      unless_other false = tt

      last_wins :
          (r : Raw)
          → Clean p r
          → Clean p
              (elim r [ some w ↦ some w | none ↦ if str_eq (lower j) k then some v else none ])
      last_wins none c = unless_other (str_eq (lower j) k)
      last_wins (some w) c = c

  pub members_of-Clean : (raw : Raw) → Clean p raw → Gives (CleanMembers p) (members_of raw)
  unfolding mentions members_mention
  members_of-Clean none h = tt
  members_of-Clean (some null) h = refl
  members_of-Clean (some (object ms)) h = h
  members_of-Clean (some _) h = tt

  not_tag : (s : Bytes) → like p s ≡ false → str_eq s p ≡ false
  not_tag s h = elim (Bool-cases (str_eq s p)) [
    | inl e ↦
        absurd (Bool-apart (like p p) itself (subst (λ t. like p t ≡ false) (str_eq→eq s p e) h))
    | inr e ↦ e
  ]

  string_of-Clean : (raw : Raw) → Clean p raw → Gives (λ s. str_eq s p ≡ false) (string_of raw)
  unfolding mentions
  string_of-Clean none h = text
  string_of-Clean (some null) h = text
  string_of-Clean (some (string s)) h = not_tag s h
  string_of-Clean (some _) h = tt

  pub raw_at-Clean : (k : String) (ms : Members) → CleanMembers p ms → Clean p (raw_at k ms)
  raw_at-Clean k ms = raw_member-Clean (codes k) ms

  pub string_at-Clean :
      (k : String) (ms : Members)
      → CleanMembers p ms
      → Gives (λ s. str_eq s p ≡ false) (string_at k ms)
  string_at-Clean k ms h = string_of-Clean (raw_at k ms) (raw_at-Clean k ms h)

  struct_of-Clean : (raw : Raw) → Clean p raw → Gives (CleanMembers p) (struct_of raw)
  unfolding members_mention
  struct_of-Clean none h = refl
  struct_of-Clean (some v) h = members_of-Clean (some v) h

  pub struct_at-Clean :
      (k : String) (ms : Members) → CleanMembers p ms → Gives (CleanMembers p) (struct_at k ms)
  struct_at-Clean k ms h = struct_of-Clean (raw_at k ms) (raw_at-Clean k ms h)

  pub typed_of-Clean : (ms : Members) → CleanMembers p ms → Gives (CleanTyped p) (typed_of ms)
  unfolding typed_of
  typed_of-Clean ms h =
      Gives-bind (λ s. str_eq s p ≡ false) (CleanTyped p) (string_at "@type" ms) _
        (string_at-Clean "@type" ms h) (λ s k. (k, raw_at-Clean "@value" ms h))

  pub unmarshal_typed-Clean : (raw : Raw) → Clean p raw → Gives (CleanTyped p) (unmarshal_typed raw)
  unfolding unmarshal_typed
  unmarshal_typed-Clean raw h =
      Gives-bind (CleanMembers p) (CleanTyped p) (members_of raw) _ (members_of-Clean raw h)
        typed_of-Clean

  pub unmarshal_body-Clean :
      (raw : Raw) → Clean p raw → Gives (λ b. CleanTyped p b.message) (unmarshal_body raw)
  unfolding unmarshal_body
  unmarshal_body-Clean raw h =
      Gives-bind (CleanMembers p) _ (members_of raw) _ (members_of-Clean raw h) λ ms m.
        Gives-bind (λ _. Unit {0}) _ (string_at "plugin" ms) _ (Gives-any _)
          λ s _.
            Gives-bind (CleanMembers p) _ (struct_at "message" ms) _
              (struct_at-Clean "message" ms m)
              λ inner i.
                Gives-bind (CleanTyped p) _ (typed_of inner) _ (typed_of-Clean inner i) (λ t c. c)

  pub unmarshal_chain_event-Clean :
      (raw : Raw) → Clean p raw → Gives (λ b. CleanTyped p b.event) (unmarshal_chain_event raw)
  unfolding unmarshal_chain_event
  unmarshal_chain_event-Clean raw h =
      Gives-bind (CleanMembers p) _ (members_of raw) _ (members_of-Clean raw h) λ ms m.
        Gives-bind (CleanMembers p) _ (struct_at "event" ms) _ (struct_at-Clean "event" ms m)
          λ inner i. Gives-bind (CleanTyped p) _ (typed_of inner) _ (typed_of-Clean inner i) λ t c.
            Gives-bind (λ _. Unit {0}) _ (string_at "height" ms) _ (Gives-any _)
              λ _ _.
                Gives-bind (λ _. Unit {0}) _ (string_at "tx_hash" ms) _ (Gives-any _)
                  λ _ _.
                    Gives-bind (λ _. Unit {0}) _ (int_at "block_number" ms) _ (Gives-any _)
                      (λ _ _. c)
