-- ===== src/Tests/SqlRuns.antt =====
-- Runs of the SQL analysis.
use rowset_studio.Common.{◌≡◌, refl, Bool, true, false, List, [], ◌∷◌, Bytes, codes, map}
use rowset_studio.SqlGuard.Lexer.{lex_dialect}
use rowset_studio.SqlGuard.Script.{run_parse}
use rowset_studio.SqlGuard.Types.{Dialect, mysql, Kind, select, delete, ddl, Token, Result, ok, err}
use rowset_studio.Tests.Fixtures.{ascii_runtime}

abbrev texts : Result (List Token) → List Bytes
texts (ok ts) = map (λ t. t.text) ts
texts (err e) = []

abbrev lexed : Dialect → Bytes → List Bytes
unfolding lex_dialect
lexed d s = texts (lex_dialect ascii_runtime d s)

abbrev kind_of : Bytes → Kind
unfolding run_parse
kind_of s = (run_parse ascii_runtime mysql s).0.kind

abbrev where_in : Bytes → Bool
unfolding run_parse
where_in s = (run_parse ascii_runtime mysql s).0.has_where

lex_simple :
    lexed mysql (codes "select 'a;b' -- c\n, `x y`")
    ≡ map (λ s. s) (codes "select" ∷ codes "'a;b'" ∷ codes "," ∷ codes "`x y`" ∷ [])
unfolding lex_dialect
lex_simple = refl

kinds :
    (kind_of (codes "select 1") ≡ select)
    × (kind_of (codes "update t set x=1; drop table t") ≡ ddl)
    × (kind_of (codes "with x as (delete from t returning *) select * from x") ≡ delete)
    × (kind_of (codes "create procedure p() begin delete from t; end") ≡ ddl)
unfolding run_parse
kinds = (refl, refl, refl, refl)

wheres :
    (where_in (codes "delete from t where id = 1") ≡ true)
    × (where_in (codes "delete from t where 1 = 1 or id = 2") ≡ false)
    × (where_in (codes "delete from t where (not (2 > 3))") ≡ false)
    × (where_in (codes "update t set x=1 where id=1; update u set x=1") ≡ false)
    × (where_in (codes "select * from t where 'a'='a'") ≡ false)
unfolding run_parse
wheres = (refl, refl, refl, refl, refl)
