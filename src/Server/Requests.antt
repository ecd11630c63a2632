-- ===== src/Server/Requests.antt =====
-- The theorems about internal/server/server.go at concrete requests.
use gno_ibc_relayer_api.Prelude.{
  ℕ, ◌≡◌, ◌⊎◌, inl, inr, refl, sym, ap, subst, ◌∙◌, true, false, ◌||◌, any, Option, none, some,
  List, [], ◌∷◌, ◌++◌, ◌==◌, if◌then◌else◌, All, arith,
}
use gno_ibc_relayer_api.Prelude.Membership.{In}
use gno_ibc_relayer_api.Prelude.Strings.{Bytes, codes, is_empty, str_eq}
use gno_ibc_relayer_api.Db.Sample.{sample}
use gno_ibc_relayer_api.Server.Handlers.{Query, new_recent_cache}
use gno_ibc_relayer_api.Server.Router.{
  Match, matched, no_route, no_method, Mux, Request, differs, IsSegment, serve_request,
}
use gno_ibc_relayer_api.Server.Routed.{SameTables, IsCode, serve_request-Reads}
use gno_ibc_relayer_api.Server.Status.{Found, serve_request-Found}
use gno_ibc_relayer_api.Indexer.Tests.{detected_bridge}

-- A router that knows plain patterns, and a placeholder at the end.
unfoldable drop_last : Bytes → Bytes
drop_last [] = []
drop_last (x ∷ []) = []
drop_last (x ∷ y ∷ text) = x ∷ drop_last (y ∷ text)

unfoldable hole : Bytes → Bytes → Option Query
hole name text =
    if is_empty text || any (λ x. x == 47) text then none else some ((drop_last name, text) ∷ [])

unfoldable match_pattern : Bytes → Bytes → Option Query
match_pattern [] [] = some []
match_pattern [] (y ∷ text) = none
match_pattern (x ∷ pattern) [] = if x == 123 then hole pattern [] else none
match_pattern (x ∷ pattern) (y ∷ text) =
    if x == 123
    then hole pattern (y ∷ text)
    else if x == y
    then match_pattern pattern text
    else none

unfoldable first_match : {H : Type 0} → List (Bytes × H) → Bytes → Match H
first_match [] text = no_route
first_match ((pattern, h) ∷ routes) text = elim (match_pattern pattern text) [
  | some params ↦ matched h params
  | none ↦ first_match routes text
]

drop_last-snoc : (name : Bytes) (x : ℕ) → drop_last (name ++ x ∷ []) ≡ name
unfolding drop_last
drop_last-snoc [] x = refl
drop_last-snoc (y ∷ []) x = refl
drop_last-snoc (y ∷ z ∷ name) x = ap (λ t. y ∷ t) (drop_last-snoc (z ∷ name) x)

match_pattern-placeholder :
    (prefix name value : Bytes)
    → any (λ x. x == 123) prefix ≡ false
    → IsSegment value
    → match_pattern (prefix ++ codes "{" ++ name ++ codes "}") (prefix ++ value)
      ≡ some ((name, value) ∷ [])
unfolding match_pattern hole any
match_pattern-placeholder [] name [] plain segment = cc
match_pattern-placeholder [] name (y ∷ value) plain segment =
    rw (segment, drop_last-snoc name 125) refl
match_pattern-placeholder (x ∷ prefix) name value plain segment =
    ground (arith, match_pattern-placeholder prefix name value, plain, segment)

match_pattern-differs :
    (pattern prefix value : Bytes)
    → differs pattern prefix ≡ true
    → match_pattern pattern (prefix ++ value) ≡ none
unfolding match_pattern differs
match_pattern-differs [] prefix value d = cc
match_pattern-differs (x ∷ pattern) [] value d = cc
match_pattern-differs (x ∷ pattern) (y ∷ prefix) value d =
    ground (arith, match_pattern-differs pattern prefix value)

module _ {H : Type 0} (prefix name value : Bytes) (h : H) where
  first_match-placeholder :
      (routes : List (Bytes × H))
      → any (λ x. x == 123) prefix ≡ false
      → In (prefix ++ codes "{" ++ name ++ codes "}", h) routes
      → All
          (λ route.
            (route ≡ (prefix ++ codes "{" ++ name ++ codes "}", h))
            ⊎ (differs route.0 prefix ≡ true))
          routes
      → IsSegment value
      → first_match routes (prefix ++ value) ≡ matched h ((name, value) ∷ [])
  unfolding first_match
  first_match-placeholder [] plain i others segment = absurd i
  first_match-placeholder (route ∷ routes) plain i others segment = elim others.0 [
    | inl same ↦
        rw
          (
            first_match,
            ap (λ x. x.0) same,
            match_pattern-placeholder prefix name value plain segment,
            ap (λ x. x.1) same,
          )
          refl
    | inr other ↦
        rw (first_match, match_pattern-differs route.0 prefix value other)
          (first_match-placeholder routes plain (later i other) others.1 segment)
  ]
    where
      some_none : ◌≡◌ {A = Option Query} (some ((name, value) ∷ [])) none → ⊥
      some_none e = cc

      later :
          In (prefix ++ codes "{" ++ name ++ codes "}", h) (route ∷ routes)
          → differs route.0 prefix ≡ true
          → In (prefix ++ codes "{" ++ name ++ codes "}", h) routes
      later (inr j) other = j
      later (inl same) other = absurd (
          some_none (
            sym (match_pattern-placeholder prefix name value plain segment)
            ∙ subst (λ x. match_pattern x.0 (prefix ++ value) ≡ none) (sym same)
                (match_pattern-differs route.0 prefix value other)))

abbrev by_method : {H : Type 0} → List (Bytes × H) → Bytes → Bytes → Match H
by_method routes method text =
    if str_eq method (codes "GET") then first_match routes text else no_method

unfoldable plain_mux : Mux
unfolding str_eq
plain_mux = record {
  dispatch = by_method;
  placeholder = λ routes prefix name value h plain i others segment.
      first_match-placeholder prefix name value h routes plain i others segment;
}

abbrev status_request : Request
status_request = record {
  method = codes "GET";
  path = codes "/status/0xab";
  query = [];
  look = 10;
  second_look = 10;
  store = 11;
}

serve_request-Reads_example :
    SameTables detected_bridge
      (serve_request sample plain_mux status_request new_recent_cache detected_bridge).2
    × IsCode (serve_request sample plain_mux status_request new_recent_cache detected_bridge).0.code
serve_request-Reads_example =
    serve_request-Reads sample plain_mux status_request new_recent_cache detected_bridge

serve_request-Found_example :
    Found
      (codes "0xab")
      detected_bridge
      (serve_request sample plain_mux status_request new_recent_cache detected_bridge).0
unfolding any
serve_request-Found_example =
    serve_request-Found sample plain_mux status_request new_recent_cache detected_bridge
      (codes "0xab") refl refl refl refl
