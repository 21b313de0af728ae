-- ===== src/Gateway/Dashboard/State/Bound.antt =====
-- The parameters that `build_state` of statix-gateway/src/routes/dashboard/mod.rs binds, against
-- the `{name:Type}` placeholders of the text that sql.rs builds.
use statix.Prelude.{
  ℕ, ◌+◌, ◌≡◌, refl, ap, sym, ◌∙◌, Bool, true, false, Option, none, some, List, [], ◌∷◌, ◌++◌, map,
  ◌==◌, if◌then◌else◌, count, count-append, arith, String,
}
use statix.Prelude.Text.{Text}
use statix.Prelude.Map.{is_some}
use statix.Gateway.Dashboard.Query.{
  NormalizedQuery, Sort, cpu, memory, memory_peak, execs, last_seen, Order, asc, desc, codes,
  column, keyword,
}
use statix.Gateway.Dashboard.Sql.{rows, totals, inner, filters, text_of}
use statix.Gateway.Dashboard.State.{Param, number, Query, text_param, rows_query, totals_query}

-- The names between a brace and a colon; `some acc` is within braces.
unfoldable pub scan : Option Text → Text → List Text
scan m [] = []
scan none (c ∷ cs) = scan (if c == b'{' then some [] else none) cs
scan (some acc) (c ∷ cs) = elim (c == b':') [
  | true ↦ acc ∷ scan none cs
  | false ↦ scan (some (acc ++ c ∷ [])) cs
]

unfoldable pub placeholders : Text → List Text
unfolding scan
placeholders sql = scan none sql

abbrev pub names : List (Text × Param) → List Text
names ps = map (λ (p : Text × Param). p.0) ps

abbrev pub if_some : Bool → Text → List Text
if_some true t = t ∷ []
if_some false t = []

inner-scan :
    (n : Bool) (rest : Text)
    → scan none (inner n ++ rest) ≡ codes "cutoff_ns" ∷ (if_some n (codes "node") ++ scan none rest)
unfolding scan inner
inner-scan true rest = refl
inner-scan false rest = refl

filters-scan :
    (q u : Bool) (rest : Text)
    → scan none (filters q u ++ rest) ≡ if_some q (codes "q") ++ scan none rest
unfolding scan filters
filters-scan true true rest = refl
filters-scan true false rest = refl
filters-scan false true rest = refl
filters-scan false false rest = refl

filters-scan_end : (q u : Bool) → scan none (filters q u) ≡ if_some q (codes "q") ++ []
unfolding scan filters
filters-scan_end true true = refl
filters-scan_end true false = refl
filters-scan_end false true = refl
filters-scan_end false false = refl

column-scan : (s : Sort) (rest : Text) → scan none (codes (column s) ++ rest) ≡ scan none rest
unfolding scan column
column-scan cpu rest = refl
column-scan memory rest = refl
column-scan memory_peak rest = refl
column-scan execs rest = refl
column-scan last_seen rest = refl

keyword-scan : (o : Order) (rest : Text) → scan none (codes (keyword o) ++ rest) ≡ scan none rest
unfolding scan keyword
keyword-scan asc rest = refl
keyword-scan desc rest = refl

rows-placeholders :
    (s : Sort) (o : Order) (q u n : Bool)
    → placeholders (rows s o q u n)
      ≡ codes "cutoff_ns"
        ∷ (if_some n (codes "node") ++ (if_some q (codes "q") ++ codes "limit" ∷ []))
unfolding placeholders rows text_of
rows-placeholders s o q u n = rw (inner-scan, filters-scan, column-scan, keyword-scan) refl

totals-placeholders :
    (q u n : Bool)
    → placeholders (totals q u n)
      ≡ codes "cutoff_ns" ∷ (if_some n (codes "node") ++ (if_some q (codes "q") ++ []))
unfolding placeholders totals text_of
totals-placeholders q u n = rw (inner-scan, filters-scan_end) refl

-- Every placeholder of a query is bound, and nothing else: each name stands as often in the text
-- as among the parameters.
abbrev pub AllBound : Query → Type 0
AllBound q = (p : Text → Bool) → count p (placeholders q.sql) ≡ count p (names q.params)

names-text_param :
    (name : String) (t : Option Text) (p : Text → Bool)
    → count p (names (text_param name t)) ≡ count p (if_some (is_some t) (codes name))
names-text_param name none p = refl
names-text_param name (some t) p = refl

names-append : (xs ys : List (Text × Param)) → names (xs ++ ys) ≡ names xs ++ names ys
names-append [] ys = refl
names-append (x ∷ xs) ys = ap (λ t. x.0 ∷ t) (names-append xs ys)

counted :
    (p : Text → Bool) (node q : Option Text) (before : List (Text × Param))
    → count p (names ((before ++ text_param "node" node) ++ text_param "q" q))
      ≡ count p (names before)
        + (count p (if_some (is_some node) (codes "node"))
            + count p (if_some (is_some q) (codes "q")))
counted p node q before =
    rw (names-append, names-append)
      (omega (
        arith,
        count-append p (names before ++ names (text_param "node" node)) (names (text_param "q" q)),
        count-append p (names before) (names (text_param "node" node)),
        names-text_param "node" node p,
        names-text_param "q" q p,
      ))

regrouped :
    (p : Text → Bool) (c : Text) (xs ys zs : List Text)
    → count p (c ∷ (xs ++ (ys ++ zs))) ≡ count p (c ∷ zs) + (count p xs + count p ys)
regrouped p c xs ys zs = omega (
  arith,
  count-append p (c ∷ []) (xs ++ (ys ++ zs)),
  count-append p (c ∷ []) zs,
  count-append p xs (ys ++ zs),
  count-append p ys zs,
)

-- Every `{name:Type}` placeholder in the text of both queries of the dashboard is bound to a
-- parameter, once, and no parameter is bound that the text does not name, for every question.
pub queries-AllBound :
    (n : NormalizedQuery) (cutoff : ℕ)
    → AllBound (rows_query n cutoff) × AllBound (totals_query n cutoff)
unfolding rows_query totals_query
queries-AllBound n cutoff = (
  λ p. rw rows-placeholders (
      regrouped p (codes "cutoff_ns") (if_some (is_some n.node) (codes "node"))
        (if_some (is_some n.q) (codes "q")) (codes "limit" ∷ [])
      ∙ sym (
          counted p n.node n.q
            ((codes "cutoff_ns", number cutoff) ∷ (codes "limit", number n.limit) ∷ []))),
  λ p. rw totals-placeholders (
      regrouped p (codes "cutoff_ns") (if_some (is_some n.node) (codes "node"))
        (if_some (is_some n.q) (codes "q")) []
      ∙ sym (counted p n.node n.q ((codes "cutoff_ns", number cutoff) ∷ []))),
)
