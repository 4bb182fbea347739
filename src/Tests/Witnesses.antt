-- ===== src/Tests/Witnesses.antt =====
-- The theorems on the SQL analysis and on the policies, applied to short texts.
use rowset_studio.Common.{
  ℕ, none, ◌≡◌, ◌≢◌, refl, inr, arith, Bool, true, false, not, ◌&&◌, List, [], ◌∷◌, Bytes, bytes_eq,
  codes, any, map,
}
use rowset_studio.SqlGuard.Types.{
  valid, mysql, delete, kind_eq, is_write, Token, Result, ok, err, out_of_fuel, lacks_where,
}
use rowset_studio.SqlGuard.Lexer.{lex_dialect}
use rowset_studio.SqlGuard.Lexer.Total.{lex_dialect-total}
use rowset_studio.SqlGuard.Lexer.Spans.{Spans, lex_dialect-Spans}
use rowset_studio.SqlGuard.Lexer.Nesting.{WellNested, lex_dialect-WellNested}
use rowset_studio.SqlGuard.Split.{split_statements}
use rowset_studio.SqlGuard.Split.Semicolons.{cut_at, separators, split_statements-cut_at}
use rowset_studio.SqlGuard.Tables.{extract_tables, table_key, seen_key}
use rowset_studio.SqlGuard.Tables.Keys.{first_of_key, references, DistinctKeys, extract_tables-keys}
use rowset_studio.SqlGuard.Script.{merge_script, script_parts, run_parse}
use rowset_studio.SqlGuard.Script.Kinds.{Riskiest, merge_script-Riskiest}
use rowset_studio.SqlGuard.Script.Unscoped.{lacks_where-merge_script}
use rowset_studio.SqlGuard.Cql.{parse_children, batch_kind}
use rowset_studio.SqlGuard.Cql.Batches.{parse_children-accepts_iff}
use rowset_studio.SqlGuard.Cache.{Cache, parse_dialect}
use rowset_studio.SqlGuard.Cache.Coherence.{CacheInv, parse_uncached, parse_dialect-coherent}
use rowset_studio.Policy.{deny, Input, evaluate, apply_rules}
use rowset_studio.Policy.Guardrails.{blocked, effect_of, effect-evaluate}
use rowset_studio.Policy.Scripts.{evaluate-unscoped_delete, evaluate-read_only_script}
use rowset_studio.Tests.Fixtures.{ascii_runtime}

abbrev tokens_of : Result (List Token) → List Token
tokens_of (ok ts) = ts
tokens_of (err e) = []

-- A text with parentheses, a string and two statements.
abbrev two_deletes : Bytes
two_deletes = codes "delete from a where f(';'); delete from b"

abbrev two_tokens : List Token
unfolding lex_dialect
two_tokens = tokens_of (lex_dialect ascii_runtime mysql two_deletes)

lex_dialect-total_example : lex_dialect ascii_runtime mysql (codes "/* a") ≢ err out_of_fuel
lex_dialect-total_example = lex_dialect-total ascii_runtime mysql (codes "/* a")

lex_dialect-Spans_example : Spans two_deletes 0 two_tokens
unfolding lex_dialect
lex_dialect-Spans_example = lex_dialect-Spans ascii_runtime mysql two_deletes refl

lex_dialect-WellNested_example : WellNested 0 two_tokens
unfolding lex_dialect
lex_dialect-WellNested_example = lex_dialect-WellNested ascii_runtime mysql two_deletes refl

split_statements-cut_at_example :
    split_statements ascii_runtime mysql two_deletes
    ≡ ok (cut_at two_deletes 0 (separators two_tokens))
unfolding lex_dialect bytes_eq
split_statements-cut_at_example = split_statements-cut_at ascii_runtime mysql two_deletes refl refl

abbrev word : Bytes → ℕ → Token
word text depth = record {
  text = text;
  lower = text;
  start = 0;
  end = 0;
  depth = depth;
  identifier = true;
  quoted = false;
}

abbrev behind_delete : List Token
behind_delete = word (codes "t") 1 ∷ word (codes "where") 1 ∷ word (codes "id") 1 ∷ []

extract_tables-keys_example :
    (extract_tables two_tokens ≡ first_of_key [] (references true false two_tokens))
    × DistinctKeys (extract_tables two_tokens)
    × (seen_key (codes ".a.") (map table_key (extract_tables two_tokens))
        ≡ seen_key (codes ".a.") (map table_key (references true false two_tokens)))
extract_tables-keys_example = extract_tables-keys two_tokens (codes ".a.")

abbrev statements : List Bytes
statements = codes "delete from a" ∷ codes "drop table b" ∷ []

merge_script-Riskiest_example :
    Riskiest
      (merge_script ascii_runtime mysql two_deletes statements).kind
      (script_parts ascii_runtime mysql statements)
merge_script-Riskiest_example = merge_script-Riskiest ascii_runtime mysql two_deletes statements

lacks_where-merge_script_example :
    lacks_where (merge_script ascii_runtime mysql two_deletes statements) delete
    ≡ any
        (λ p. kind_eq p.kind delete && not p.has_where)
        (script_parts ascii_runtime mysql statements)
lacks_where-merge_script_example =
    lacks_where-merge_script ascii_runtime mysql two_deletes statements delete (inr refl)

abbrev empty_cache : Cache
empty_cache i = record { entries = []; order = []; next = 0 }

empty_cache-CacheInv : CacheInv ascii_runtime empty_cache
empty_cache-CacheInv i = record { cached = tt; bounded = omega arith; in_order = omega arith }

parse_dialect-coherent_example :
    ((parse_dialect ascii_runtime mysql two_deletes empty_cache).0
      ≡ parse_uncached ascii_runtime mysql two_deletes)
    × CacheInv ascii_runtime (parse_dialect ascii_runtime mysql two_deletes empty_cache).1
parse_dialect-coherent_example =
    parse_dialect-coherent ascii_runtime mysql two_deletes empty_cache empty_cache-CacheInv

-- What is asked of the policies.
abbrev asked : Bool → Input
unfolding run_parse
asked read_only = record {
  statement = (run_parse ascii_runtime mysql two_deletes).0;
  role = codes "analyst";
  read_only = read_only;
  environment = codes "production";
  cleared = false;
  disabled = λ key. false;
  enabled = λ key. false;
}

effect-evaluate_example :
    (evaluate [] (asked false)).effect
    ≡ effect_of (blocked (asked false)) (apply_rules [] (asked false)).effect
effect-evaluate_example = effect-evaluate [] (asked false)

evaluate-unscoped_delete_example : (evaluate [] (asked false)).effect ≡ deny
unfolding run_parse
evaluate-unscoped_delete_example =
    evaluate-unscoped_delete ascii_runtime mysql two_deletes (codes "delete from a where f(';')")
      (codes "delete from b") [] [] (asked false) refl refl refl refl refl

evaluate-read_only_script_example : (evaluate [] (asked true)).effect ≡ deny
unfolding run_parse is_write
evaluate-read_only_script_example =
    evaluate-read_only_script ascii_runtime mysql two_deletes (codes "delete from a where f(';')")
      (codes "delete from b") [] [] (asked true) refl refl refl refl refl

abbrev batch : List Bytes
batch = codes "delete from b" ∷ []

accepted_batch :
    (parse_children ascii_runtime two_deletes (ok (codes "insert into a" ∷ batch)) empty_cache).0.1
    ≡ none
unfolding run_parse parse_uncached valid batch_kind kind_eq
accepted_batch =
    (parse_children-accepts_iff ascii_runtime two_deletes (codes "insert into a") batch empty_cache
        empty_cache-CacheInv).1
      ((refl, refl), ((refl, refl), tt))
